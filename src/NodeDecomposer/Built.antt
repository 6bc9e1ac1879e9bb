-- ===== src/NodeDecomposer/Built.antt =====
-- internal/core/tasknode_decomposer.go: the nodes that CreateTaskNodeFromConfig makes of a
-- configuration, and their decomposition.
use go_control.Prelude.{
  ℕ, suc, String, ◌≡◌, refl, sym, subst, ◌∙◌, ap, true, Option, none, some, List, ◌⊎◌, inl, inr,
  str_eq, if_holds,
}
use go_control.GoMap.{GoMap}
use go_control.Outcome.{
  Outcome, returns, panics, deadlocks, Holds, Returns, and_then, and_then-Holds,
}
use go_control.Types.{SystemConfig, Float64}
use go_control.Nodes.{
  Value, Values, Table, table, items, no_values, value, no_entries, entry, field, TaskNode,
  TaskNodes, next_node, new_sequence_task_node,
}
use go_control.NodeDecomposer
use go_control.NodeDecomposer.{as_text, as_number, decompose_task_node}
use go_control.NodeDecomposer.Creation.{
  CreateError, Made, continued, try, kept, timed, fresh_id, create_io, create_motor, create_delay,
  create_with, configured_children, of_value, each, of_child, create_task_node_from_config, unit_of,
}
use go_control.NodeDecomposer.Plans.{
  Plan, Plans, io, motor, delay, sequence, no_plans, plan, build, build_all,
  decompose_task_node-IsPlanned,
}

abbrev IsBuilt : CreateError ⊎ (TaskNode × ℕ) → Type 0
IsBuilt (inl e) = Unit
IsBuilt (inr (n, k)) = (p : Plan) × (n ≡ build p)

abbrev AreBuilt : CreateError ⊎ (TaskNodes × ℕ) → Type 0
AreBuilt (inl e) = Unit
AreBuilt (inr (ns, k)) = (ps : Plans) × (ns ≡ build_all ps)

abbrev MayBeBuilt : CreateError ⊎ (Option TaskNode × ℕ) → Type 0
MayBeBuilt (inl e) = Unit
MayBeBuilt (inr (none, k)) = Unit
MayBeBuilt (inr (some n, k)) = (p : Plan) × (n ≡ build p)

trivially : {A : Type 0} (o : Outcome A) → Holds {0, 0} (λ a. Unit) o
trivially (returns a) = tt
trivially panics = tt
trivially deadlocks = tt

whatever :
    {A B : Type 0} (Q : B → Type 0) (o : Outcome A) (f : A → Outcome B)
    → ((a : A) → Holds Q (f a))
    → Holds Q (and_then o f)
whatever Q o f h = and_then-Holds (λ a. Unit) Q o f (trivially o) (λ a u. h a)

module _ (itoa : ℕ → String) (clock : ℕ → ℕ) (parse_duration : String → Option ℕ)
    (whole : Float64 → ℕ) where
  create_io-IsBuilt :
      (t : Table) (n : ℕ) → Holds IsBuilt (create_io itoa clock parse_duration whole t n)
  unfolding create_io build
  create_io-IsBuilt t n = whatever IsBuilt (as_number (field t "value")) _ λ v.
      whatever IsBuilt (as_text (field t "channel")) _
        λ channel. whatever IsBuilt (as_text (field t "action")) _ λ action. (io _ _ _, refl)

  create_motor-IsBuilt :
      (t : Table) (n : ℕ) → Holds IsBuilt (create_motor itoa clock parse_duration whole t n)
  unfolding create_motor build
  create_motor-IsBuilt t n = whatever IsBuilt (as_number (field t "speed")) _ λ v.
      whatever IsBuilt (as_text (field t "motor_id")) _
        λ channel. whatever IsBuilt (as_text (field t "action")) _ λ action. (motor _ _ _, refl)

  create_delay-IsBuilt :
      (t : Table) (n : ℕ) → Holds IsBuilt (create_delay itoa clock parse_duration whole t n)
  unfolding create_delay build
  create_delay-IsBuilt t n =
      whatever IsBuilt (unit_of itoa clock parse_duration whole (field t "unit")) _
        λ u. (delay _ _ _, refl)

  create_with-IsBuilt :
      (kind : String) (t : Table) (children : ℕ → Made TaskNodes) (n : ℕ)
      → Holds AreBuilt (children n)
      → Holds IsBuilt (create_with itoa clock parse_duration whole kind t children n)
  unfolding create_with build
  create_with-IsBuilt kind t children n h =
      if_holds (Holds IsBuilt) (str_eq kind "io") (create_io-IsBuilt t n) (
        if_holds (Holds IsBuilt) (str_eq kind "motor_control") (create_motor-IsBuilt t n) (
          if_holds (Holds IsBuilt) (str_eq kind "delay") (create_delay-IsBuilt t n) (
            if_holds (Holds IsBuilt) (str_eq kind "sequence")
              (and_then-Holds AreBuilt IsBuilt (children n) _ h go) tt)))
    where
      go :
          (r : CreateError ⊎ (TaskNodes × ℕ))
          → AreBuilt r
          → Holds IsBuilt (
              continued
                (λ nodes m.
                  timed itoa clock parse_duration whole
                    (λ id now. new_sequence_task_node id nodes "sequential" true now)
                    "seq-"
                    m)
                r)
      go (inl e) b = tt
      go (inr (ns, m)) (ps, e) = (
        sequence (fresh_id itoa clock parse_duration whole "seq-" m) ps "sequential" true
            (clock (suc m)),
        ap
            (λ nodes.
              new_sequence_task_node (fresh_id itoa clock parse_duration whole "seq-" m) nodes
                "sequential" true (clock (suc m)))
            e,
      )

  add_child_built :
      (n : TaskNode) (p : Plan)
      → n ≡ build p
      → (r : CreateError ⊎ (TaskNodes × ℕ)) → AreBuilt r
      → Holds AreBuilt (continued (λ cs k. returns (inr (next_node n cs, k))) r)
  unfolding build
  add_child_built n p e (inl x) b = tt
  add_child_built n p e (inr (ns, k)) (ps, f) =
      (plan p ps, ap (λ x. next_node x ns) e ∙ ap (next_node (build p)) f)

  unchanged :
      (r : CreateError ⊎ (TaskNodes × ℕ))
      → AreBuilt r
      → Holds AreBuilt (continued (λ cs k. returns (inr (cs, k))) r)
  unchanged (inl x) b = tt
  unchanged (inr (ns, k)) b = b

  each_step :
      (f : ℕ → Made TaskNodes)
      → ((m : ℕ) → Holds AreBuilt (f m))
      → (r : CreateError ⊎ (Option TaskNode × ℕ)) → MayBeBuilt r
      → Holds AreBuilt (continued (λ c m. try (f m) λ cs k. returns (inr (kept c cs, k))) r)
  each_step f h (inl e) b = tt
  each_step f h (inr (none, m)) b = and_then-Holds AreBuilt AreBuilt (f m) _ (h m) unchanged
  each_step f h (inr (some n, m)) (p, e) =
      and_then-Holds AreBuilt AreBuilt (f m) _ (h m) (add_child_built n p e)

  as_child :
      (r : CreateError ⊎ (TaskNode × ℕ))
      → IsBuilt r
      → Holds MayBeBuilt (continued (λ c m. returns (inr (some c, m))) r)
  as_child (inl e) b = tt
  as_child (inr (n, k)) b = b

  mutual
    unfolding configured_children build

    table_lem :
        (t : Table) (n : ℕ)
        → Holds AreBuilt (configured_children itoa clock parse_duration whole t n)
    table_lem no_entries n = (no_plans, refl)
    table_lem (entry k v rest) n =
        if_holds (Holds AreBuilt) (str_eq k "children") (value_lem v n) (table_lem rest n)

    value_lem : (v : Value) (n : ℕ) → Holds AreBuilt (of_value itoa clock parse_duration whole v n)
    value_lem (items vs) n = each_lem vs n
    value_lem _ n = (no_plans, refl)

    each_lem : (vs : Values) (n : ℕ) → Holds AreBuilt (each itoa clock parse_duration whole vs n)
    each_lem no_values n = (no_plans, refl)
    each_lem (value v more) n =
        and_then-Holds MayBeBuilt AreBuilt (of_child itoa clock parse_duration whole v n) _
          (child_lem v n) (each_step (each itoa clock parse_duration whole more) (each_lem more))

    child_lem :
        (v : Value) (n : ℕ) → Holds MayBeBuilt (of_child itoa clock parse_duration whole v n)
    child_lem (table t) n = whatever MayBeBuilt (as_text (field t "type")) _ λ kind.
        if_holds (Holds MayBeBuilt) (str_eq kind "") tt (
          and_then-Holds IsBuilt MayBeBuilt
            (create_with itoa clock parse_duration whole kind t
              (configured_children itoa clock parse_duration whole t) n)
            _ (create_with-IsBuilt kind t _ n (table_lem t n)) as_child)
    child_lem _ n = tt

-- What was made, if anything, decomposes without a panic.
abbrev pub IsDecomposable :
    (TaskNode → Outcome NodeDecomposer.Commands) → CreateError ⊎ (TaskNode × ℕ) → Type 0
IsDecomposable decompose (inl e) = Unit
IsDecomposable decompose (inr (n, k)) = Returns (λ c. Unit) (decompose n)

forget : {A : Type 0} (P : A → Type 0) (o : Outcome A) → Returns P o → Returns (λ a. Unit) o
forget P (returns a) h = tt
forget P panics h = h
forget P deadlocks h = h

module _ (itoa : ℕ → String) (clock : ℕ → ℕ) (parse_duration : String → Option ℕ)
    (show : Value → String) (show_duration : ℕ → String) (utf8 : String → List ℕ)
    (half : Float64 → Float64) (whole : Float64 → ℕ) (config : SystemConfig) (devices : GoMap ℕ)
    (now : ℕ) where
  -- A node that CreateTaskNodeFromConfig makes of a configuration, however deep, decomposes without a
  -- panic.
  pub create_task_node_from_config-IsDecomposable :
      (kind : String) (t : Table) (n : ℕ)
      → Holds
          (IsDecomposable
            (decompose_task_node show show_duration utf8 half whole config devices now))
          (create_task_node_from_config itoa clock parse_duration whole kind t n)
  unfolding create_task_node_from_config
  create_task_node_from_config-IsDecomposable kind t n =
      go
        (create_with itoa clock parse_duration whole kind t
          (configured_children itoa clock parse_duration whole t) n)
        (create_with-IsBuilt itoa clock parse_duration whole kind t _ n
          (table_lem itoa clock parse_duration whole t n))
    where
      go :
          (o : Made TaskNode)
          → Holds IsBuilt o
          → Holds
              (IsDecomposable
                (decompose_task_node show show_duration utf8 half whole config devices now))
              o
      go panics h = tt
      go deadlocks h = tt
      go (returns (inl e)) h = tt
      go (returns (inr (m, k))) (p, e) =
          subst
            (λ (x : TaskNode).
              Returns (λ c. Unit)
                (decompose_task_node show show_duration utf8 half whole config devices now x))
            (sym e)
            (forget _ _ (
              decompose_task_node-IsPlanned show show_duration utf8 half whole config devices now
                p))
