-- ===== src/Reload/Leaving.antt =====
-- The first loop of a reload leaves no service that is not configured, but those that are stopping
-- to be removed.
use svlopp.Prelude.{
  ℕ, ◌≡◌, ◌≢◌, ◌⊎◌, refl, sym, ap, ◌∙◌, subst, true, false, Option, none, some, [], ◌∷◌, arith,
  nat_eq, list_eq, Text, ok, err, nat_beq_iff, eq_iff, ◌==◌, Bool-cases, inl, inr,
}
use svlopp.Prelude.Maps.{Map, get, insert, contains_key, get-insert, get-remove}
use svlopp.Os.{Os, History}
use svlopp.Service.Types.{is_stopping, ServiceState, stopped, running, stopping, nothing, remove}
use svlopp.Service.Config.{ServiceConfig}
use svlopp.Service.Methods.{Service}
use svlopp.Service.Process.{stop_service}
use svlopp.Registry.Defs.{ServiceRegistry, Handled, service, remove_service, stop_registered}
use svlopp.Reload.{remove_in, remove_one, remove_missing, and_then}
use svlopp.Reload.Kept.{remove_one-other}

-- The service was asked to stop, and is removed when it has stopped.
abbrev pub IsLeaving : Service → Type 0
IsLeaving s = (s.pending_action ≡ remove) × (is_stopping s.state ≡ true)

-- What holds of an id that no configured service has.
abbrev pub IsGoneOrLeaving : ℕ → ServiceRegistry → Type 0
IsGoneOrLeaving k registry = (t : Service) → service k registry ≡ some t → IsLeaving t

stop_service-IsLeaving :
    (os : Os) (s : Service) (p : ℕ) (h : History)
    → s.state ≡ running p
    → s.pending_action ≡ remove
    → (stop_service os s h).0 ≡ ok tt
    → IsLeaving (stop_service os s h).1
unfolding stop_service
stop_service-IsLeaving os s p h e a o = ground arith

put-IsGoneOrLeaving :
    (k : ℕ) (s : Service) (m : Map ℕ Service) (t : Service)
    → IsLeaving s
    → get k (insert k s m) ≡ some t
    → IsLeaving t
put-IsGoneOrLeaving k s m t l e =
    let same : some s ≡ some t = ground (arith, get-insert k k s m, nat_beq_iff k k) in
    subst IsLeaving (ap (λ o. elim o [ none ↦ s | some x ↦ x ]) same) l

remove_in-IsGoneOrLeaving :
    (os : Os) (state : ServiceState) (k : ℕ) (s : Service) (registry : ServiceRegistry)
    (h : History)
    → s.state ≡ state
    → (remove_in os state k s registry h).0 ≡ ok tt
    → IsGoneOrLeaving k (remove_in os state k s registry h).1
unfolding remove_in stop_registered remove_service
remove_in-IsGoneOrLeaving os (stopped r) k s registry h q e t here = absurd (
    ground (
      arith,
      get-remove k k (insert k (record s { pending_action = nothing }) registry.services_map),
      nat_beq_iff k k,
    ))
remove_in-IsGoneOrLeaving os (stopping p d) k s registry h q e t here =
    put-IsGoneOrLeaving k (record s { pending_action = remove }) registry.services_map t
      (refl, ap is_stopping q) here
remove_in-IsGoneOrLeaving os (running p) k s registry h q e t here =
    let s' : Service = record s { pending_action = remove } in
    put-IsGoneOrLeaving k (stop_service os s' h).1 registry.services_map t
      (stop_service-IsLeaving os s' p h q refl e) here

remove_one-IsGoneOrLeaving :
    (os : Os) (k : ℕ) (o : Option Service) (registry : ServiceRegistry) (h : History)
    → service k registry ≡ o
    → (remove_one os k o registry h).0 ≡ ok tt
    → IsGoneOrLeaving k (remove_one os k o registry h).1
unfolding remove_one
remove_one-IsGoneOrLeaving os k none registry h q e t here = ground arith
remove_one-IsGoneOrLeaving os k (some s) registry h q e t here =
    remove_in-IsGoneOrLeaving os s.state k s registry h refl e t here

module _ (os : Os) (configs : Map Text ServiceConfig) (k : ℕ) where
  -- One id more does not bring it back.
  remove_one-stays :
      (j : ℕ) (registry : ServiceRegistry) (h : History)
      → (remove_one os j (service j registry) registry h).0 ≡ ok tt
      → IsGoneOrLeaving k registry
      → IsGoneOrLeaving k (remove_one os j (service j registry) registry h).1
  remove_one-stays j registry h e g t here = elim (Bool-cases (k == j)) [
    | inl p ↦
        let same : k ≡ j = (nat_beq_iff k j).0 p in
        remove_one-IsGoneOrLeaving os j (service j registry) registry h refl e t (
          ap (λ i. service i (remove_one os j (service j registry) registry h).1) (sym same) ∙ here)
    | inr p ↦ g t (
        sym (
          remove_one-other os j (service j registry) registry h k
            (ground (arith, p, nat_beq_iff k j)))
        ∙ here)
  ]

  and_then-ok :
      (out : Handled) (loop : ServiceRegistry → History → Handled)
      → (and_then out loop).0 ≡ ok tt
      → (out.0 ≡ ok tt) × (and_then out loop ≡ loop out.1 out.2)
  and_then-ok (ok _, registry, h) loop e = (refl, refl)
  and_then-ok (err x, registry, h) loop e = ground arith

  -- Gone or leaving already, or still to be handled.
  abbrev IsHandled : Text → Map Text ℕ → ServiceRegistry → Type 0
  IsHandled name ids registry = IsGoneOrLeaving k registry ⊎ (get name ids ≡ some k)

  skip :
      (name x : Text) (j : ℕ) (ids : Map Text ℕ) (registry : ServiceRegistry)
      → x ≢ name
      → IsHandled name ((x, j) ∷ ids) registry
      → IsHandled name ids registry
  unfolding get
  skip name x j ids registry ne (inl g) = inl g
  skip name x j ids registry ne (inr q) = inr (ground (arith, eq_iff x name))

  handle :
      (name x : Text) (j : ℕ) (ids : Map Text ℕ) (registry : ServiceRegistry) (h : History)
      → (remove_one os j (service j registry) registry h).0 ≡ ok tt
      → IsHandled name ((x, j) ∷ ids) registry
      → IsHandled name ids (remove_one os j (service j registry) registry h).1
  unfolding get
  handle name x j ids registry h e (inl g) = inl (remove_one-stays j registry h e g)
  handle name x j ids registry h e (inr q) = elim (Bool-cases (x == name)) [
    | inl p ↦
        let same : j ≡ k = ground (arith, p, q) in
        inl (
          subst (λ i. IsGoneOrLeaving i (remove_one os j (service j registry) registry h).1) same
            (remove_one-IsGoneOrLeaving os j (service j registry) registry h refl e))
    | inr p ↦ inr (ground (arith, p, q))
  ]

  pub remove_missing-IsGoneOrLeaving :
      (name : Text) (ids : Map Text ℕ) (registry : ServiceRegistry) (h : History)
      → contains_key name configs ≡ false
      → IsHandled name ids registry
      → (remove_missing os configs ids registry h).0 ≡ ok tt
      → IsGoneOrLeaving k (remove_missing os configs ids registry h).1
  unfolding remove_missing get
  remove_missing-IsGoneOrLeaving name [] registry h out (inl g) e = g
  remove_missing-IsGoneOrLeaving name [] registry h out (inr q) e = ground arith
  remove_missing-IsGoneOrLeaving name ((x, j) ∷ ids) registry h out before e =
      elim (Bool-cases (contains_key x configs)) [
        | inl p ↦ rw p (
            remove_missing-IsGoneOrLeaving name ids registry h out
              (skip name x j ids registry
                (λ q. ground (arith, p, out, ap (λ y. contains_key y configs) q)) before)
              (rw p at e))
        | inr p ↦
            let one = remove_one os j (service j registry) registry h in
            let (good, whole) = and_then-ok one (remove_missing os configs ids) (rw p at e) in
            rw (p, whole)
              (remove_missing-IsGoneOrLeaving name ids one.1 one.2 out
                (handle name x j ids registry h good before)
                (sym (ap (λ o. o.0) whole) ∙ (rw p at e)))
      ]
