-- ===== src/FlowContext/Routing.antt =====
-- Which actions reach which flow, in every interleaving.
use go_wmp.Prelude.{
  eq_iff, str_eq, sym, ℕ, ◌≡◌, ◌≤◌, ◌<◌, ◌+◌, refl, String, some, List, [], ◌∷◌, arith, All,
  All-append, length, length-append, Bool-cases, Option-cases, inl, inr, ◌==◌,
}
use go_wmp.Prelude.Maps.{Map, lookup, lookup-insert, lookup-erase}
use go_wmp.Types.Flow.{FlowStartParams, FlowActionParams}
use go_wmp.FlowContext.{
  set, insert, ltb, erase, end_goroutine, wait_for_action, discard_action, deliver_action,
  cancel_flow, handle_action, start_flow, Codec, take_action, Flows,
}

pub data Event : Type 0 where
  starts : FlowStartParams → Event
  acts : FlowActionParams → Event
  cancels : String → Event
  delivers discards waits ends : ℕ → Event

module _ {F : Type 0} (c : Codec) where
  unfoldable pub step : Event → Flows F → Flows F
  step (starts ps) s = (start_flow c ps s).1
  step (acts ps) s = (handle_action c ps s).1
  step (cancels id) s = cancel_flow id s
  step (delivers n) s = deliver_action n s
  step (discards n) s = discard_action n s
  step (waits n) s = (wait_for_action n s).1
  step (ends n) s = end_goroutine n s

  unfoldable pub run : List Event → Flows F → Flows F
  unfolding step
  run [] s = s
  run (e ∷ es) s = run es (step e s)

-- The action is one for the context's flow.
abbrev pub IsFor : (ℕ → String) → ℕ → ℕ × FlowActionParams → Type 0
IsFor ids next e = (ids e.0 ≡ e.1.flow_id) × (e.0 < next)

pub record IsRouted {F : Type 0} (s : Flows F) : Type 0 where
  pub entries :
      (id : String) (n : ℕ) → lookup id s.flows ≡ some n → (s.flow_id n ≡ id) × (n < s.next)
  pub routed_right : All (IsFor s.flow_id s.next) s.routed
  pub queued_right : (n : ℕ) → All (λ a. s.flow_id n ≡ a.flow_id) (s.actions n)
  pub bounded : (n : ℕ) → length (s.actions n) ≤ 10

take_action-All :
    (P : ℕ × FlowActionParams → Type 0) (n : ℕ) (rs rest : List (ℕ × FlowActionParams))
    (a : FlowActionParams)
    → take_action n rs ≡ some (a, rest)
    → All P rs
    → P (n, a) × All P rest
unfolding take_action
take_action-All P n [] rest a e h = cc
take_action-All P n ((k, x) ∷ rs) rest a e (p, h) = elim (Bool-cases (k == n)) [
  | inl same ↦
      let eq : k ≡ n = ground arith in
      let found : x ≡ a = ground arith in
      let left : rs ≡ rest = ground arith in rw (sym eq, sym found, sym left) (p, h)
  | inr other ↦ elim (Option-cases (take_action n rs)) [
    | inl gone ↦ absurd (cc (rw (other, gone, take_action) at e))
    | inr ((y, ys), there) ↦
        let (q, hs) = take_action-All P n rs ys y there h in
        let found : y ≡ a = ground arith in
        let left : (k, x) ∷ ys ≡ rest = ground arith in rw (sym found, sym left) (q, (p, hs))
  ]
]

weaken {ℓ κ μ} :
    {A : Type ℓ} (P : A → Type κ) (Q : A → Type μ) (xs : List A)
    → ((x : A) → P x → Q x)
    → All P xs
    → All Q xs
weaken P Q [] imp h = tt
weaken P Q (x ∷ xs) imp (p, h) = (imp x p, weaken P Q xs imp h)

module _ {F : Type 0} (c : Codec) where
  started_entry :
      (ps : FlowStartParams) (s : Flows F)
      → IsRouted s
      → (id : String) (n : ℕ) → lookup id (insert ps.flow_id s.next s.flows) ≡ some n
      → (set s.next ps.flow_id s.flow_id n ≡ id) × (n < s.next + 1)
  started_entry ps s v id n there = elim (Bool-cases (str_eq ps.flow_id id)) [
    | inl same ↦
        let name : ps.flow_id ≡ id = (eq_iff _ _).0 same in
        let new : n ≡ s.next = ground (arith, lookup-insert ps.flow_id id s.next s.flows) in
        (ground arith, omega arith)
    | inr other ↦
        let old : lookup id s.flows ≡ some n =
          ground (arith, lookup-insert ps.flow_id id s.next s.flows) in
        let (named, before) = v.entries id n old in (ground arith, omega arith)
  ]

  pub start-IsRouted :
      (ps : FlowStartParams) (s : Flows F) → IsRouted s → IsRouted (start_flow c ps s).1
  unfolding start_flow
  start-IsRouted ps s v = elim (Option-cases (lookup ps.flow_type s.handlers)) [
    | inl unknown ↦ simp (unknown, start_flow) v
    | inr (fn, known) ↦
        simp (known, start_flow)
          (record {
            entries = λ id n there. started_entry ps s v id n there;
            routed_right =
                weaken (IsFor s.flow_id s.next) _ s.routed
                  (λ e fine. let (named, before) = fine in (ground arith, omega arith))
                  v.routed_right;
            queued_right = λ n. elim (Bool-cases (n == s.next)) [
              | inl new ↦ rw new tt
              | inr old ↦ rw old (v.queued_right n)
            ];
            bounded = λ n. let fits = v.bounded n in ground arith;
          })
  ]

  pub act-IsRouted :
      (ps : FlowActionParams) (s : Flows F) → IsRouted s → IsRouted (handle_action c ps s).1
  unfolding handle_action
  act-IsRouted ps s v = elim (Option-cases (lookup ps.flow_id s.flows)) [
    | inl gone ↦ simp (gone, handle_action) v
    | inr (n, there) ↦
        simp (there, handle_action)
          (record {
            entries = v.entries;
            routed_right = (v.entries ps.flow_id n there, v.routed_right);
            queued_right = v.queued_right;
            bounded = v.bounded;
          })
  ]

survives :
    (id other : String) (m : Map ℕ) (k : ℕ)
    → lookup other (erase id m) ≡ some k
    → lookup other m ≡ some k
survives id other m k found = ground (arith, lookup-erase id other m)

module _ {F : Type 0} where
  pub cancel-IsRouted : (id : String) (s : Flows F) → IsRouted s → IsRouted (cancel_flow id s)
  unfolding cancel_flow
  cancel-IsRouted id s v = elim (Option-cases (lookup id s.flows)) [
    | inl gone ↦ simp (gone, cancel_flow) v
    | inr (n, there) ↦
        simp (there, cancel_flow)
          (record {
            entries = λ other k found. v.entries other k (survives id other s.flows k found);
            routed_right = v.routed_right;
            queued_right = v.queued_right;
            bounded = v.bounded;
          })
  ]

  -- Only the flows, the flags and the queues change, and the entries only by losing some.
  pub end-IsRouted : (n : ℕ) (s : Flows F) → IsRouted s → IsRouted (end_goroutine n s)
  unfolding end_goroutine
  end-IsRouted n s v = elim (Bool-cases (s.running n)) [
    | inr stopped ↦ simp (stopped, end_goroutine) v
    | inl alive ↦
        simp (alive, end_goroutine)
          (record {
            entries =
                λ other k found. v.entries other k (survives (s.flow_id n) other s.flows k found);
            routed_right = v.routed_right;
            queued_right = v.queued_right;
            bounded = v.bounded;
          })
  ]

  pub deliver-IsRouted : (n : ℕ) (s : Flows F) → IsRouted s → IsRouted (deliver_action n s)
  unfolding deliver_action
  deliver-IsRouted n s v = elim (Option-cases (take_action n s.routed)) [
    | inl gone ↦ simp (gone, deliver_action) v
    | inr ((a, rest), there) ↦ elim (Bool-cases (ltb (length (s.actions n)) 10)) [
      | inr full ↦ simp (there, full, deliver_action) v
      | inl room ↦
          let (right, others) =
            take_action-All (IsFor s.flow_id s.next) n s.routed rest a there v.routed_right in
          simp (there, room, deliver_action)
            (record {
              entries = v.entries;
              routed_right = others;
              queued_right = λ k. elim (Bool-cases (k == n)) [
                | inr other ↦ rw other (v.queued_right k)
                | inl same ↦
                    let eq : k ≡ n = ground arith in
                    rw same
                      (rw eq (All-append _ (s.actions n) (a ∷ []) (v.queued_right n) (right.0, tt)))
              ];
              bounded = λ k.
                  let fits = v.bounded k in ground (arith, length-append (s.actions n) (a ∷ []));
            })
    ]
  ]

  pub discard-IsRouted : (n : ℕ) (s : Flows F) → IsRouted s → IsRouted (discard_action n s)
  unfolding discard_action
  discard-IsRouted n s v = elim (Option-cases (take_action n s.routed)) [
    | inl gone ↦ simp (gone, discard_action) v
    | inr ((a, rest), there) ↦ elim (Bool-cases (s.done n)) [
      | inr unclosed ↦ simp (there, unclosed, discard_action) v
      | inl closed ↦
          simp (there, closed, discard_action)
            (record {
              entries = v.entries;
              routed_right =
                  (take_action-All (IsFor s.flow_id s.next) n s.routed rest a there
                    v.routed_right).1;
              queued_right = v.queued_right;
              bounded = v.bounded;
            })
    ]
  ]

  pub wait-IsRouted : (n : ℕ) (s : Flows F) → IsRouted s → IsRouted (wait_for_action n s).1
  unfolding wait_for_action
  wait-IsRouted n s v = go (s.actions n) refl
    where
      go : (q : List FlowActionParams) → s.actions n ≡ q → IsRouted (wait_for_action n s).1
      go [] e = simp (e, wait_for_action) v
      go (a ∷ rest) e =
          simp (e, wait_for_action)
            (record {
              entries = v.entries;
              routed_right = v.routed_right;
              queued_right = λ k. elim (Bool-cases (k == n)) [
                | inr other ↦ rw other (v.queued_right k)
                | inl same ↦
                    let eq : k ≡ n = ground arith in rw same (rw eq (rw e at (v.queued_right n)).1)
              ];
              bounded = λ k. let fits = v.bounded k in let shorter = v.bounded n in ground arith;
            })
