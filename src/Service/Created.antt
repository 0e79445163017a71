-- ===== src/Service/Created.antt =====
-- What `Service::new` gives when it succeeds.
use svlopp.Prelude.{ℕ, ◌≡◌, none, Text, ok, arith}
use svlopp.Service.Config.{ServiceConfig}
use svlopp.Service.Methods.{Service, new, pid}
use svlopp.Service.Types.{stopped, never_started}

pub new-fields :
    (id : ℕ) (name : Text) (cfg : ServiceConfig) (s : Service)
    → new id name cfg ≡ ok s
    → (s.id ≡ id) × (s.name ≡ name) × (pid s ≡ none)
unfolding new
new-fields id name cfg s e = ground arith

pub new-state :
    (id : ℕ) (name : Text) (cfg : ServiceConfig) (s : Service)
    → new id name cfg ≡ ok s
    → s.state ≡ stopped never_started
unfolding new
new-state id name cfg s e = ground arith
