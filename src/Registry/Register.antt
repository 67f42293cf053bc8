-- ===== src/Registry/Register.antt =====
-- What registration does to the handler tables.
use go_wmp.Prelude.{
  ◌++◌, ◌∙◌, refl, sym, subst, ◌≡◌, String, none, some, List, [], ◌∷◌, arith, eq_iff, Option-cases,
  inl, inr, All,
}
use go_wmp.Prelude.Maps.{Map, lookup, insert, lookup-insert, lookup-insert_self}
use go_wmp.Registry.{
  FlowHandler, MethodHandler, ResolveHandler, register, register_flows, register_methods, Profile,
  register_hooks, register_resolver, Registry, claim_all,
}

-- Entries that were there stay, under every key.
abbrev pub Keeps {ℓ} : {H : Type ℓ} → Map H → Map H → Type ℓ
Keeps {H} m m' = (key : String) (h : H) → lookup key m ≡ some h → lookup key m' ≡ some h

-- Each name in a list leads to the handler.
abbrev pub Leads {ℓ} : {H : Type ℓ} → List String → Map H → H → Type ℓ
Leads names m h = All (λ name. lookup name m ≡ some h) names

Keeps_refl {ℓ} : {H : Type ℓ} (m : Map H) → Keeps m m
Keeps_refl m key h e = e

All-Keeps {ℓ} :
    {H : Type ℓ} (h : H) (names : List String) (m m' : Map H)
    → Keeps m m'
    → All (λ n. lookup n m ≡ some h) names
    → All (λ n. lookup n m' ≡ some h) names
All-Keeps h [] m m' k a = tt
All-Keeps h (n ∷ names) m m' k (e, a) = (k n h e, All-Keeps h names m m' k a)

module _ {ℓ} {H : Type ℓ} (h : H) where
  claim_all-Keeps : (names : List String) (m : Map H) → Keeps m (claim_all names h m).0
  unfolding claim_all
  claim_all-Keeps [] m key old e = e
  claim_all-Keeps (name ∷ names) m key old e = elim (Option-cases (lookup name m)) [
    | inr (taken, there) ↦ rw (there, claim_all) e
    | inl free ↦
        rw (free, claim_all)
          (claim_all-Keeps names (insert name h m) key old
            (ground (arith, lookup-insert name key h m, eq_iff name key)))
  ]

  claim_all_free :
      (name : String) (names : List String) (m : Map H)
      → lookup name m ≡ none
      → claim_all (name ∷ names) h m ≡ claim_all names h (insert name h m)
  unfolding claim_all
  claim_all_free name names m free = rw (free, claim_all)

  claim_all_taken :
      (name : String) (names : List String) (m : Map H) (old : H)
      → lookup name m ≡ some old
      → claim_all (name ∷ names) h m ≡ (m, some name)
  unfolding claim_all
  claim_all_taken name names m old there = rw (there, claim_all)

  -- If no name is taken, each of them leads to the handler.
  claim_all_complete :
      (names : List String) (m : Map H)
      → (claim_all names h m).1 ≡ none
      → All (λ name. lookup name (claim_all names h m).0 ≡ some h) names
  claim_all_complete [] m e = tt
  claim_all_complete (name ∷ names) m e = elim (Option-cases (lookup name m)) [
    | inr (taken, there) ↦ absurd (cc (rw (claim_all_taken name names m taken there) at e))
    | inl free ↦
        let step = claim_all_free name names m free in
        subst (λ r. All (λ n. lookup n r.0 ≡ some h) (name ∷ names)) (sym step)
          (
            claim_all-Keeps names (insert name h m) name h (lookup-insert_self name h m),
            claim_all_complete names (insert name h m) (rw step at e),
          )
  ]

  -- A conflict names an entry that was there, or a name that the list holds twice.
  claim_all-conflict :
      (names : List String) (m : Map H) (name : String)
      → (claim_all names h m).1 ≡ some name
      → (old : H) × (lookup name (claim_all names h m).0 ≡ some old)
  claim_all-conflict [] m name e = unfold claim_all in absurd (cc e)
  claim_all-conflict (first ∷ names) m name e = elim (Option-cases (lookup first m)) [
    | inr (taken, there) ↦
        let step = claim_all_taken first names m taken there in
        let named : some first ≡ some name = rw step at e in
        let same : first ≡ name = cc in
        (taken, rw step (subst (λ n. lookup n m ≡ some taken) same there))
    | inl free ↦
        let step = claim_all_free first names m free in
        rw step (claim_all-conflict names (insert first h m) name (rw step at e))
  ]

module _ {W : Type 0} where
  -- No registration, also one that fails half-way, replaces a handler or a flow owner.
  pub record KeepsHandlers (r r' : Registry W) : Type 0 where
    pub flows : Keeps r.flow_handlers r'.flow_handlers
    pub methods : Keeps r.methods r'.methods
    pub resolvers : Keeps r.resolvers r'.resolvers
    pub owners : r'.flow_owners ≡ r.flow_owners

  KeepsHandlers-refl : (r : Registry W) → KeepsHandlers r r
  KeepsHandlers-refl r = record {
    flows = Keeps_refl r.flow_handlers;
    methods = Keeps_refl r.methods;
    resolvers = Keeps_refl r.resolvers;
    owners = refl;
  }

  hooks-Keeps : (p : Profile W) (r : Registry W) → KeepsHandlers r (register_hooks p r).0
  unfolding register_hooks
  hooks-Keeps p r = record {
    flows = Keeps_refl r.flow_handlers;
    methods = Keeps_refl r.methods;
    resolvers = Keeps_refl r.resolvers;
    owners = refl;
  }

  KeepsHandlers-trans :
      (r r' r2 : Registry W) → KeepsHandlers r r' → KeepsHandlers r' r2 → KeepsHandlers r r2
  KeepsHandlers-trans r r' r2 a b = record {
    flows = λ key h e. b.flows key h (a.flows key h e);
    methods = λ key h e. b.methods key h (a.methods key h e);
    resolvers = λ key h e. b.resolvers key h (a.resolvers key h e);
    owners = b.owners ∙ a.owners;
  }

  resolver-Keeps : (p : Profile W) (r : Registry W) → KeepsHandlers r (register_resolver p r).0
  unfolding register_resolver
  resolver-Keeps p r = elim (Option-cases p.resolve_handler) [
    | inl gone ↦ rw (gone, register_resolver) (hooks-Keeps p r)
    | inr (h, there) ↦
        let m = (claim_all h.resolve_types h r.resolvers).0 in
        let entered : KeepsHandlers r (record r { resolvers = m }) = record {
          flows = Keeps_refl r.flow_handlers;
          methods = Keeps_refl r.methods;
          resolvers = claim_all-Keeps h h.resolve_types r.resolvers;
          owners = refl;
        } in
        elim (Option-cases (claim_all h.resolve_types h r.resolvers).1) [
          | inr (name, taken) ↦ rw (there, taken, register_resolver) entered
          | inl free ↦
              rw (there, free, register_resolver)
                (KeepsHandlers-trans _ _ _ entered (hooks-Keeps p _))
        ]
  ]

  methods-Keeps : (p : Profile W) (r : Registry W) → KeepsHandlers r (register_methods p r).0
  unfolding register_methods
  methods-Keeps p r = elim (Option-cases p.method_handler) [
    | inl gone ↦ rw (gone, register_methods) (resolver-Keeps p r)
    | inr (h, there) ↦
        let m = (claim_all h.methods h r.methods).0 in
        let entered : KeepsHandlers r (record r { methods = m }) = record {
          flows = Keeps_refl r.flow_handlers;
          methods = claim_all-Keeps h h.methods r.methods;
          resolvers = Keeps_refl r.resolvers;
          owners = refl;
        } in
        elim (Option-cases (claim_all h.methods h r.methods).1) [
          | inr (name, taken) ↦ rw (there, taken, register_methods) entered
          | inl free ↦
              rw (there, free, register_methods)
                (KeepsHandlers-trans _ _ _ entered (resolver-Keeps p _))
        ]
  ]

  flows-Keeps : (p : Profile W) (r : Registry W) → KeepsHandlers r (register_flows p r).0
  unfolding register_flows
  flows-Keeps p r = elim (Option-cases p.flow_handler) [
    | inl gone ↦ rw (gone, register_flows) (methods-Keeps p r)
    | inr (h, there) ↦
        let m = (claim_all h.flow_types h r.flow_handlers).0 in
        let entered : KeepsHandlers r (record r { flow_handlers = m }) = record {
          flows = claim_all-Keeps h h.flow_types r.flow_handlers;
          methods = Keeps_refl r.methods;
          resolvers = Keeps_refl r.resolvers;
          owners = refl;
        } in
        elim (Option-cases (claim_all h.flow_types h r.flow_handlers).1) [
          | inr (name, taken) ↦ rw (there, taken, register_flows) entered
          | inl free ↦
              rw (there, free, register_flows)
                (KeepsHandlers-trans _ _ _ entered (methods-Keeps p _))
        ]
  ]

  -- Registering a profile, also when it fails half-way, replaces no flow handler, method handler or
  -- resolve handler that was registered before, and no flow owner.
  pub register-KeepsHandlers : (p : Profile W) (r : Registry W) → KeepsHandlers r (register p r).0
  unfolding register
  register-KeepsHandlers p r =
      let k = flows-Keeps p (record r { profiles = r.profiles ++ p ∷ [] }) in
      record { flows = k.flows; methods = k.methods; resolvers = k.resolvers; owners = k.owners }

  resolver_complete :
      (p : Profile W) (r : Registry W) (h : ResolveHandler W)
      → (register_resolver p r).1 ≡ none
      → p.resolve_handler ≡ some h
      → Leads h.resolve_types (register_resolver p r).0.resolvers h
  unfolding register_resolver register_hooks
  resolver_complete p r h e there =
      elim (Option-cases (claim_all h.resolve_types h r.resolvers).1) [
        | inr (name, taken) ↦ absurd (cc (rw (there, taken, register_resolver) at e))
        | inl free ↦
            rw (there, free, register_resolver)
              (claim_all_complete h h.resolve_types r.resolvers free)
      ]

  -- A stage that succeeds has entered its names and goes on to the next stage.
  methods_pass :
      (p : Profile W) (r : Registry W)
      → (register_methods p r).1 ≡ none
      → (r' : Registry W) × (register_methods p r ≡ register_resolver p r')
        × ((h : MethodHandler W) → p.method_handler ≡ some h → Leads h.methods r'.methods h)
  unfolding register_methods
  methods_pass p r e = elim (Option-cases p.method_handler) [
    | inl gone ↦ (r, simp (gone, register_methods), λ h there. absurd (cc (sym gone ∙ there)))
    | inr (h, there) ↦ elim (Option-cases (claim_all h.methods h r.methods).1) [
      | inr (name, taken) ↦ absurd (cc (rw (there, taken, register_methods) at e))
      | inl free ↦ (
        record r { methods = (claim_all h.methods h r.methods).0 },
        simp (there, free, register_methods),
        λ h' there'.
            let same : h ≡ h' = cc in
            subst (λ x. Leads x.methods (claim_all h.methods h r.methods).0 x) same
              (claim_all_complete h h.methods r.methods free),
      )
    ]
  ]

  flows_pass :
      (p : Profile W) (r : Registry W)
      → (register_flows p r).1 ≡ none
      → (r' : Registry W) × (register_flows p r ≡ register_methods p r')
        × ((h : FlowHandler W) → p.flow_handler ≡ some h → Leads h.flow_types r'.flow_handlers h)
  unfolding register_flows
  flows_pass p r e = elim (Option-cases p.flow_handler) [
    | inl gone ↦ (r, simp (gone, register_flows), λ h there. absurd (cc (sym gone ∙ there)))
    | inr (h, there) ↦ elim (Option-cases (claim_all h.flow_types h r.flow_handlers).1) [
      | inr (name, taken) ↦ absurd (cc (rw (there, taken, register_flows) at e))
      | inl free ↦ (
        record r { flow_handlers = (claim_all h.flow_types h r.flow_handlers).0 },
        simp (there, free, register_flows),
        λ h' there'.
            let same : h ≡ h' = cc in
            subst (λ x. Leads x.flow_types (claim_all h.flow_types h r.flow_handlers).0 x) same
              (claim_all_complete h h.flow_types r.flow_handlers free),
      )
    ]
  ]

  -- When a registration reports no conflict, each flow type, method and resolve type of the profile
  -- leads to the profile's handler.
  pub register_complete :
      (p : Profile W) (r : Registry W)
      → (register p r).1 ≡ none
      → ((h : FlowHandler W)
          → p.flow_handler ≡ some h
          → Leads h.flow_types (register p r).0.flow_handlers h)
        × ((h : MethodHandler W)
            → p.method_handler ≡ some h
            → Leads h.methods (register p r).0.methods h)
        × ((h : ResolveHandler W)
            → p.resolve_handler ≡ some h
            → Leads h.resolve_types (register p r).0.resolvers h)
  register_complete p r e =
      let r0 : Registry W = record r { profiles = r.profiles ++ p ∷ [] } in
      let start : register p r ≡ register_flows p r0 = unfold register in refl in
      let (r1, first, flow_leads) = flows_pass p r0 (rw start at e) in
      let (r2, second, method_leads) = methods_pass p r1 (rw (start ∙ first) at e) in
      let all = start ∙ first ∙ second in
      (
        λ h there.
            rw (start ∙ first)
              (All-Keeps h h.flow_types _ _ (methods-Keeps p r1).flows (flow_leads h there)),
        λ h there.
            rw all (All-Keeps h h.methods _ _ (resolver-Keeps p r2).methods (method_leads h there)),
        λ h there. rw all (resolver_complete p r2 h (rw all at e) there),
      )
