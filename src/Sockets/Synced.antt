-- ===== src/Sockets/Synced.antt =====
-- What `sync_sockets` of crates/oxinit/src/supervisor.rs leaves armed.
use oxinit.Prelude.{
  ℕ, zero, suc, ◌↔◌, ◌⊎◌, subst, ◌-◌, ◌≡◌, ◌≤◌, ◌<◌, refl, sym, inl, inr, Bool, true, false, Option,
  none, some, List, [], ◌∷◌, arith, leb, ◌==◌, if◌then◌else◌, Bool-cases, Option-cases,
}
use oxinit.Text.{Text}
use oxinit.Time.{u32_max}
use oxinit.Table.{Table, lookup}
use oxinit.Service.{Instance, inactive, failed}
use oxinit.Supervisor.Winding.{is_idle_iff}
use oxinit.Sockets.{
  Bound, ids_from, get, set_armed, same, want, sync_socket, sync_ids, sync_sockets,
}

get-set_armed :
    (k id : ℕ) (armed : Bool) (bound : List Bound)
    → get k (set_armed id armed bound) ≡ (
        if id == k
        then elim (get k bound) [ none ↦ none | some b ↦ some (record b { armed = armed }) ]
        else get k bound)
unfolding get set_armed
get-set_armed k id armed [] = ground arith
get-set_armed zero zero armed (b ∷ bs) = ground arith
get-set_armed zero (suc id) armed (b ∷ bs) = ground arith
get-set_armed (suc k) zero armed (b ∷ bs) = ground arith
get-set_armed (suc k) (suc id) armed (b ∷ bs) = ground (arith, get-set_armed k id armed bs)

same_iff : (a b : Bool) → (same a b ≡ true) ↔ (a ≡ b)
same_iff true true = ground arith
same_iff true false = ground arith
same_iff false true = ground arith
same_iff false false = ground arith

-- A service that is known, and that is neither up nor on its way up or down.
abbrev pub IsDown : Table Instance → Text → Type 0
IsDown instances service =
    (i : Instance) × (lookup service instances ≡ some i)
    × ((i.state ≡ inactive) ⊎ (i.state ≡ failed))

want-IsDown :
    (instances : Table Instance) (service : Text)
    → (want instances service ≡ true) ↔ IsDown instances service
want-IsDown instances service = elim (Option-cases (lookup service instances)) [
  | inl e ↦ (λ h. absurd (ground arith), λ (i, f, _). absurd (ground arith))
  | inr (i, e) ↦ (
    λ h. (i, e, (is_idle_iff i.state).0 (ground arith)),
    λ (j, f, down). ground (arith, (is_idle_iff j.state).1 down),
  )
]

module _ (epoll_takes : ℕ → Bool → Bool) (instances : Table Instance) where
  -- A descriptor behind the reconciliation: changed where epoll takes the change.
  abbrev pub settled_bound : ℕ → Text → Bound → Bound
  settled_bound id service b =
      if epoll_takes id (want instances service)
      then record b { armed = want instances service }
      else b

  abbrev settled_at : ℕ → Text → Option Bound → Option Bound
  settled_at id service none = none
  settled_at id service (some b) = some (settled_bound id service b)

  get-sync_own :
      (id : ℕ) (service : Text) (bound : List Bound)
      → get id (sync_socket epoll_takes instances id service bound)
        ≡ settled_at id service (get id bound)
  unfolding sync_socket
  get-sync_own id service bound =
      let set = get-set_armed id id (want instances service) bound in
      elim (Option-cases (get id bound)) [
        | inl e ↦ ground arith
        | inr (b, e) ↦ elim (Bool-cases (same (want instances service) b.armed)) [
          | inl f ↦ ground (arith, same_iff (want instances service) b.armed)
          | inr f ↦ ground arith
        ]
      ]

  get-sync_socket :
      (k id : ℕ) (service : Text) (bound : List Bound)
      → get k (sync_socket epoll_takes instances id service bound)
        ≡ (if id == k then settled_at k service (get k bound) else get k bound)
  unfolding sync_socket
  get-sync_socket k id service bound = elim (Bool-cases (id == k)) [
    | inr e ↦ ground (arith, get-set_armed k id (want instances service) bound)
    | inl e ↦
        let at : id ≡ k = ground arith in
        rw e (
          subst
            (λ j.
              get k (sync_socket epoll_takes instances j service bound)
              ≡ settled_at k service (get k bound))
            (sym at) (get-sync_own k service bound))
  ]

  -- From place `n` on, the descriptors of a list that stands there.
  settled_in : ℕ → Option Bound → Option Bound → Option Bound
  settled_in k none o = o
  settled_in k (some c) o = settled_at k c.service o

  get-sync_later :
      (k n : ℕ) (cs bound : List Bound)
      → k < n
      → get k (sync_ids epoll_takes instances (ids_from n cs) bound) ≡ get k bound
  unfolding sync_ids ids_from
  get-sync_later k n [] bound lt = refl
  get-sync_later k n (c ∷ cs) bound lt =
      let here = get-sync_socket k n c.service bound in
      let later =
        get-sync_later k (suc n) cs (sync_socket epoll_takes instances n c.service bound)
          (omega arith) in
      elim (Bool-cases (leb n u32_max)) [
        | inl e ↦ ground arith
        | inr e ↦ ground (arith, get-sync_later k (suc n) cs bound)
      ]

  get-sync_ids :
      (k n : ℕ) (cs bound : List Bound)
      → k ≤ u32_max
      → n ≤ k
      → get k (sync_ids epoll_takes instances (ids_from n cs) bound)
        ≡ settled_in k (get (k - n) cs) (get k bound)
  unfolding sync_ids ids_from get settled_in
  get-sync_ids k n [] bound fits le = refl
  get-sync_ids k n (c ∷ cs) bound fits le =
      let here = get-sync_socket k n c.service bound in
      let stepped = sync_socket epoll_takes instances n c.service bound in
      elim (Bool-cases (n == k)) [
        | inl e ↦
            let first : k - n ≡ 0 = ground arith in
            let later = get-sync_later k (suc n) cs stepped (ground arith) in
            rw first (ground arith)
        | inr e ↦
            let next : k - n ≡ suc (k - suc n) = ground arith in
            rw next (ground (arith, get-sync_ids k (suc n) cs stepped fits))
      ]

  -- A reconciliation leaves every bound descriptor in its place, and watched exactly if the service that
  -- it activates is known and is inactive or failed, where epoll takes the change, and as it was where
  -- not.
  pub sync_sockets-armed :
      (k : ℕ) (bound : List Bound) (b : Bound)
      → k ≤ u32_max
      → get k bound ≡ some b
      → (watched : Bool) × ((watched ≡ true) ↔ IsDown instances b.service)
        × (get k (sync_sockets epoll_takes instances bound)
            ≡ some (record b { armed = if epoll_takes k watched then watched else b.armed }))
  unfolding sync_sockets settled_in
  sync_sockets-armed k bound b fits e =
      let read = get-sync_ids k 0 bound bound fits (omega arith) in
      (
        want instances b.service,
        want-IsDown instances b.service,
        elim (Bool-cases (epoll_takes k (want instances b.service))) [
          | inl t ↦ ground arith
          | inr t ↦ ground arith
        ],
      )
