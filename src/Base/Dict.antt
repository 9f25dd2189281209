-- ===== src/Base/Dict.antt =====
-- A Go map with text keys, as a list of pairs. A range over the map is a walk along the list.
use harness_loop_agent.Base.{
  ◌≡◌, refl, String, Option, none, some, List, [], ◌∷◌, arith, str_eq, eq_iff, if◌then◌else◌,
  is_some, All, All-weaken, true,
}
use text.Mathlib.TextPositions.{eq_refl}

abbrev pub Dict : Type 0 → Type 0
Dict V = List (String × V)

module _ {V : Type 0} where
  -- `value, ok := table[key]`
  unfoldable pub lookup : String → Dict V → Option V
  lookup key [] = none
  lookup key (entry ∷ others) = if str_eq entry.0 key then some entry.1 else lookup key others

  -- `table[key] = value`: the first entry under the key is replaced, or one is added at the end.
  unfoldable pub insert : String → V → Dict V → Dict V
  insert key value [] = (key, value) ∷ []
  insert key value (entry ∷ others) =
      let kept = insert key value others in
      if str_eq entry.0 key then (key, value) ∷ others else entry ∷ kept

  pub lookup-insert :
      (written key : String) (value : V) (table : Dict V)
      → lookup key (insert written value table)
        ≡ (if str_eq written key then some value else lookup key table)
  unfolding lookup insert
  lookup-insert written key value [] = refl
  lookup-insert written key value (entry ∷ others) =
      let deeper = lookup-insert written key value others in
      let between = eq_iff entry.0 written in
      let read = eq_iff entry.0 key in ground (arith, deeper, between, read, eq_iff written key)

  pub lookup-insert_self :
      (key : String) (value : V) (table : Dict V) → lookup key (insert key value table) ≡ some value
  lookup-insert_self key value table = rw lookup-insert (rw eq_refl)

  -- The entries of a map satisfy `P`.
  abbrev pub Each : (String → V → Type 0) → Dict V → Type 0
  Each P [] = Unit
  Each P ((k, v) ∷ m) = P k v × Each P m

  pub Each-insert :
      (P : String → V → Type 0) (k : String) (v : V) (m : Dict V)
      → P k v
      → Each P m
      → Each P (insert k v m)
  unfolding insert
  Each-insert P k v [] p h = (p, tt)
  Each-insert P k v ((j, w) ∷ m) p h = ground (arith, Each-insert P k v m p)

  pub Each-lookup :
      (P : String → V → Type 0) (k : String) {v : V} (m : Dict V)
      → lookup k m ≡ some v
      → Each P m
      → P k v
  unfolding lookup
  Each-lookup P k [] e h = ground arith
  Each-lookup P k {v} ((j, w) ∷ m) e h = ground (arith, eq_iff j k, Each-lookup P k {v = v} m)

  -- Every key stands once.
  abbrev pub Distinct : Dict V → Type 0
  Distinct [] = Unit
  Distinct ((k, v) ∷ m) = (lookup k m ≡ none) × Distinct m

  pub Distinct-insert : (k : String) (v : V) (m : Dict V) → Distinct m → Distinct (insert k v m)
  unfolding insert lookup
  Distinct-insert k v [] h = (refl, tt)
  Distinct-insert k v ((j, w) ∷ m) h =
      ground (arith, Distinct-insert k v m, lookup-insert k j v m, eq_iff j k, eq_iff k j)

  pub entries-there : (m : Dict V) → All (λ e. is_some (lookup e.0 m) ≡ true) m
  unfolding lookup
  entries-there [] = tt
  entries-there ((k, v) ∷ m) = (
    ground (arith, eq_refl k),
    All-weaken (λ e. is_some (lookup e.0 m) ≡ true) (λ e. is_some (lookup e.0 ((k, v) ∷ m)) ≡ true)
        (λ e h. ground arith) m (entries-there m),
  )

  -- An entry of a map is what a lookup finds.
  pub Distinct-entries : (m : Dict V) → Distinct m → All (λ e. lookup e.0 m ≡ some e.1) m
  unfolding lookup
  Distinct-entries [] h = tt
  Distinct-entries ((k, v) ∷ m) h = (
    ground (arith, eq_refl k),
    All-weaken (λ e. lookup e.0 m ≡ some e.1) (λ e. lookup e.0 ((k, v) ∷ m) ≡ some e.1)
        (λ e f. ground (arith, eq_iff k e.0, h.0)) m (Distinct-entries m h.1),
  )
