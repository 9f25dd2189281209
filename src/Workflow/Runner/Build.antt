-- ===== src/Workflow/Runner/Build.antt =====
-- What `NewRunner` checks, and what its index is good for.
use harness_loop_agent.Base.{
  ℕ, suc, ◌-◌, ◌≤◌, ◌≡◌, ◌⊎◌, inl, inr, String, true, List, [], ◌∷◌, some, ok, arith, All,
  Bool-cases, eq_iff, str_eq, drop,
}
use native.Mathlib.Nat.{sub-zero}
use harness_loop_agent.Base.Dict.{Dict, lookup}
use harness_loop_agent.Workflow.Ident.{valid_identifier}
use harness_loop_agent.Workflow.Node.{Node}
use harness_loop_agent.Workflow.Runner.{Runner, RunnerOptions, Clock, index_nodes, new_runner}

module _ {T W : Type 0} where
  abbrev pub IsNamed : Node T W → Type 0
  IsNamed n = valid_identifier n.id ≡ true

  -- The node with which a list of nodes begins.
  abbrev pub Heads : String → List (Node T W) → Type 0
  Heads id [] = ⊥
  Heads id (n ∷ ns) = n.id ≡ id

  index_nodes-IsNamed :
      (i : ℕ) (ix : Dict ℕ) (ns : List (Node T W)) {out : Dict ℕ}
      → index_nodes i ix ns ≡ ok out
      → All IsNamed ns
  unfolding index_nodes
  index_nodes-IsNamed i ix [] h = tt
  index_nodes-IsNamed i ix (n ∷ ns) {out} h =
      ground (arith, index_nodes-IsNamed (suc i) ((n.id, i) ∷ ix) ns {out = out})

  drop_here :
      (n : Node T W) (ns : List (Node T W)) (id : String) (i k : ℕ)
      → n.id ≡ id
      → i ≡ k
      → Heads id (drop (k - i) (n ∷ ns))
  drop_here n ns id i k e p = let q : k - i ≡ 0 = omega arith in rw q e

  drop_there :
      (n : Node T W) (ns : List (Node T W)) (id : String) (i k : ℕ)
      → suc i ≤ k
      → Heads id (drop (k - suc i) ns)
      → Heads id (drop (k - i) (n ∷ ns))
  drop_there n ns id i k p h = let q : k - i ≡ suc (k - suc i) = omega arith in rw q h

  -- A key of the index is an old key with its old value, or the position of a node of that name.
  index_nodes-lookup :
      (i : ℕ) (ix : Dict ℕ) (ns : List (Node T W)) (id : String) (k : ℕ) {out : Dict ℕ}
      → index_nodes i ix ns ≡ ok out
      → lookup id out ≡ some k
      → (lookup id ix ≡ some k) ⊎ ((i ≤ k) × Heads id (drop (k - i) ns))
  unfolding index_nodes lookup
  index_nodes-lookup i ix [] id k h l = ground arith
  index_nodes-lookup i ix (n ∷ ns) id k {out} h l =
      elim (index_nodes-lookup (suc i) ((n.id, i) ∷ ix) ns id k {out = out} (ground arith) l) [
        | inr (p, q) ↦ inr (omega arith, drop_there n ns id i k p q)
        | inl e ↦ elim (Bool-cases (str_eq n.id id)) [
          | inl t ↦
              let p : i ≡ k = ground arith in
              inr (omega arith, drop_here n ns id i k ((eq_iff n.id id).0 t) p)
          | inr f ↦ inl (ground arith)
        ]
      ]

module _ {T W : Type 0} (clock : Clock W) (ns : List (Node T W)) (options : RunnerOptions W)
    {r : Runner T W} (built : new_runner clock ns options ≡ ok r) where
  new_runner-parts : (index_nodes 0 [] ns ≡ ok r.indexes) × (r.nodes ≡ ns)
  unfolding new_runner
  new_runner-parts = ground arith

  -- A runner keeps the nodes it was given, and each has a name.
  pub new_runner-IsNamed : (r.nodes ≡ ns) × All IsNamed r.nodes
  new_runner-IsNamed =
      (new_runner-parts.1, rw (new_runner-parts.1) (index_nodes-IsNamed 0 [] ns new_runner-parts.0))

  -- In a runner that `NewRunner` built, the index under a name is the position of a node of that
  -- name.
  pub new_runner-lookup :
      (id : String) (k : ℕ) → lookup id r.indexes ≡ some k → Heads id (drop k r.nodes)
  unfolding lookup
  new_runner-lookup id k l = elim (index_nodes-lookup 0 [] ns id k new_runner-parts.0 l) [
    | inl e ↦ cc
    | inr (p, q) ↦ rw (new_runner-parts.1) (rw (sub-zero) at q)
  ]
