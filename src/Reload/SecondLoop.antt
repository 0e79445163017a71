-- ===== src/Reload/SecondLoop.antt =====
-- The second loop of a reload, where it succeeds.
use svlopp.Prelude.{
  ℕ, ◌<◌, ◌≤◌, ◌≡◌, ◌≢◌, refl, sym, ap, ◌∙◌, subst, inl, inr, true, false, Option, none, some, [],
  ◌∷◌, arith, nat_eq, list_eq, Text, ok, err, Option-cases,
}
use svlopp.Prelude.Maps.{Map, Distinct, get, contains_key, contains_key-cons_self}
use svlopp.Os.{Os, SigSet, History, ForkIsFresh}
use svlopp.Service.Config.{ServiceConfig}
use svlopp.Service.Methods.{Service, ServiceIdGen, nextval}
use svlopp.Registry.Defs.{ServiceRegistry}
use svlopp.Registry.Invariant.{IsConsistent}
use svlopp.Reload.{
  Reloaded, and_reload, insert_started, start_new, add_new, apply_config, apply_configs,
}
use svlopp.Reload.Unchanged.{AllEntries}
use svlopp.Reload.Names.{entry_name}
use svlopp.Reload.NewService.{Adds}
use svlopp.Reload.Additions.{AreFree, AreFree-tail, apply_config-Adds}
use svlopp.Reload.Known.{
  IsThere, AreKnown, apply_config-Leaves, Leaves-IsThere, Leaves-keeps, AreKnown-step,
}

-- What is to be configured is there; what is there stays, for the names that are not to be
-- configured; they get no new service; and the ids of others are not touched.
pub record Converges (ids : Map Text ℕ) (configs : Map Text ServiceConfig) (next : ℕ)
    (m m' : Map ℕ Service) : Type 0 where
  pub all : AllEntries (IsThere m') configs
  pub stays :
      (x : Text) (c : ServiceConfig)
      → contains_key x configs ≡ false
      → IsThere m x c
      → IsThere m' x c
  pub names :
      (j : ℕ) (x : Text)
      → contains_key x configs ≡ false
      → entry_name (get j m') ≡ some x
      → entry_name (get j m) ≡ some x
  pub keeps :
      (k : ℕ)
      → k < next
      → ((x : Text) → contains_key x configs ≡ true → get x ids ≢ some k)
      → get k m' ≡ get k m

next-unused :
    (registry : ServiceRegistry) (next : ServiceIdGen) (h : History)
    → IsConsistent registry next h
    → get next registry.services_map ≡ none
next-unused registry next h c = elim (Option-cases (get next registry.services_map)) [
  | inl e ↦ e
  | inr (s, e) ↦ absurd (omega (arith, c.inv.keyed next s e))
]

module _ (name : Text) (cfg : ServiceConfig) (configs : Map Text ServiceConfig) (x : Text)
    (outside : contains_key x ((name, cfg) ∷ configs) ≡ false) where
  outside-tail : contains_key x configs ≡ false
  unfolding contains_key
  outside-tail = ground (arith, outside)

  outside-name : x ≢ name
  outside-name e = ground (
    arith,
    sym outside
        ∙ ap (λ y. contains_key y ((name, cfg) ∷ configs)) e
        ∙ contains_key-cons_self name cfg configs,
  )

module _ (os : Os) (fresh : ForkIsFresh os) (sigset : SigSet) (ids : Map Text ℕ) where
  apply_config-grows :
      (name : Text) (cfg : ServiceConfig) (o : Option ℕ) (registry : ServiceRegistry)
      (next : ServiceIdGen) (h : History)
      → next ≤ (apply_config os sigset name cfg o registry next h).2
  unfolding apply_config add_new start_new insert_started nextval
  apply_config-grows name cfg none registry next h = ground arith
  apply_config-grows name cfg (some k) registry next h = omega arith

  pub and_reload-ok :
      (out : Reloaded) (loop : ServiceRegistry → ServiceIdGen → History → Reloaded)
      → (and_reload out loop).0 ≡ ok tt
      → (out.0 ≡ ok tt) × (and_reload out loop ≡ loop out.1 out.2 out.3)
  and_reload-ok (ok _, registry, next, h) loop e = (refl, refl)
  and_reload-ok (err x, registry, next, h) loop e = ground arith

  pub apply_configs-Converges :
      (configs : Map Text ServiceConfig) (registry : ServiceRegistry) (next : ServiceIdGen)
      (h : History)
      → Distinct configs
      → AreFree ids configs registry.services_map
      → IsConsistent registry next h
      → AreKnown ids configs next registry.services_map
      → (apply_configs os sigset ids configs registry next h).0 ≡ ok tt
      → Converges ids configs next registry.services_map
          (apply_configs os sigset ids configs registry next h).1.services_map
  unfolding apply_configs contains_key
  apply_configs-Converges [] registry next h d free c known e = record {
    all = tt;
    stays = λ x cfg q there. there;
    names = λ j x q same. same;
    keeps = λ k lt ne. refl;
  }
  apply_configs-Converges ((name, cfg) ∷ configs) registry next h d free c known e =
      let out = apply_config os sigset name cfg (get name ids) registry next h in
      let m = registry.services_map in
      let m1 = out.1.services_map in
      let adds : Adds name next m h out =
        apply_config-Adds os fresh sigset ids name cfg (get name ids) registry next h c
          (free name (contains_key-cons_self name cfg configs)) in
      let (good, whole) = and_reload-ok out (apply_configs os sigset ids configs) e in
      let (k, writes, leaves) =
        apply_config-Leaves os sigset ids name cfg registry next h (get name ids)
          (λ j q.
            let (s, was) = known.present name j q (contains_key-cons_self name cfg configs) in
            (s, was, known.named name j s q was))
          good in
      let unused : get next m ≡ none = next-unused registry next h c in
      let grows = apply_config-grows name cfg (get name ids) registry next h in
      let rest =
        apply_configs-Converges configs out.1 out.2 out.3 d.1
          (AreFree-tail ids name cfg configs next m h out d.0 free adds) adds.consistent
          (AreKnown-step ids name cfg next m m1 k writes leaves unused configs known out.2 grows)
          (sym (ap (λ o. o.0) whole) ∙ e) in
      let (s, there, is_it) = leaves.there in
      let outside_name = outside-name name cfg configs in
      let outside_tail = outside-tail name cfg configs in
      subst (λ (o : Reloaded). Converges ids ((name, cfg) ∷ configs) next m o.1.services_map)
        (sym whole)
        (record {
          all = (rest.stays name cfg d.0 (k, s, there, is_it), rest.all);
          stays = λ x cfg' out_x was. rest.stays x cfg' (outside_tail x out_x) (
              Leaves-IsThere ids name cfg next m m1 k writes leaves unused configs known x cfg'
                (outside_name x out_x) was);
          names = λ j x out_x e.
              adds.names j x (outside_name x out_x) (rest.names j x (outside_tail x out_x) e);
          keeps = λ j lt ne.
              rest.keeps j (omega (arith, lt, grows)) (λ x i. ne x (ground (arith, i)))
              ∙ Leaves-keeps ids name cfg next m m1 k writes leaves unused configs known j lt
                  (ne name (contains_key-cons_self name cfg configs));
        })
