-- ===== src/Service/Process/Masks.antt =====
-- The mask that each child starts with.
use svlopp.Prelude.{◌≡◌, [], ◌∷◌, arith, nat_eq}
use svlopp.Os.{Os, SigSet, History, forked}
use svlopp.Service.Methods.{Service}
use svlopp.Service.Process.{start_service, stop_service}

-- Every child was forked with the mask.
abbrev pub AllMasked : SigSet → History → Type 0
AllMasked sigset [] = Unit
AllMasked sigset (forked svc mask answer ∷ h) = (mask ≡ sigset) × AllMasked sigset h
AllMasked sigset (_ ∷ h) = AllMasked sigset h

module _ (os : Os) (sigset : SigSet) (s : Service) (h : History) (a : AllMasked sigset h) where
  pub start_service-AllMasked : AllMasked sigset (start_service os s sigset h).2
  unfolding start_service
  start_service-AllMasked = ground arith

  pub stop_service-AllMasked : AllMasked sigset (stop_service os s h).2
  unfolding stop_service
  stop_service-AllMasked = ground arith
