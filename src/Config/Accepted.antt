-- ===== src/Config/Accepted.antt =====
-- internal/config/config.go: which configurations are accepted, and what the analyzer's start makes of
-- them.
use ro_proxy.Prelude.{
  ℕ, suc, ◌≤◌, ◌≡◌, ◌≢◌, ◌↔◌, refl, Bool, true, List, [], ◌∷◌, none, panic, inl, inr,
}
use ro_proxy.Prelude.{All, Bool-cases, arith}
use ro_proxy.Prelude.Int.{ℤ, pos, negsuc}
use ro_proxy.Common.Base.{Bytes}
use ro_proxy.Config.{Config, validate, is_port, bad_ips, bad_ip_from}
use ro_proxy.Common.Api.{init_api_consumer}

-- A port that a listener can have.
abbrev pub IsPort : ℤ → Type 0
IsPort (pos port) = (1 ≤ port) × (port ≤ 65535)
IsPort (negsuc n) = ⊥

pub record IsAccepted (parse_ip : Bytes → Bool) (c : Config) : Type 0 where
  pub port : IsPort c.listen_port
  pub some_target : c.target_ips ≢ []
  pub targets : All (λ ip. parse_ip ip ≡ true) c.target_ips

is_port-true : (z : ℤ) → is_port z ≡ true → IsPort z
is_port-true (pos n) h = ground arith
is_port-true (negsuc n) h = cc

true-is_port : (z : ℤ) → IsPort z → is_port z ≡ true
true-is_port (pos n) h = ground arith
true-is_port (negsuc n) h = absurd h

module _ (parse_ip : Bytes → Bool) where
  bad_ip_from-none :
      (i : ℕ) (ips : List Bytes)
      → bad_ip_from parse_ip i ips ≡ none
      → All (λ ip. parse_ip ip ≡ true) ips
  unfolding bad_ip_from
  bad_ip_from-none i [] h = tt
  bad_ip_from-none i (ip ∷ ips) h = elim (Bool-cases (parse_ip ip)) [
    | inl good ↦ (good, bad_ip_from-none (suc i) ips (rw good at h))
    | inr bad ↦ absurd (let e = rw bad at h in cc)
  ]

  none-bad_ip_from :
      (i : ℕ) (ips : List Bytes)
      → All (λ ip. parse_ip ip ≡ true) ips
      → bad_ip_from parse_ip i ips ≡ none
  unfolding bad_ip_from
  none-bad_ip_from i [] h = refl
  none-bad_ip_from i (ip ∷ ips) (h, hs) = rw h (none-bad_ip_from (suc i) ips hs)

  bad_ips-none :
      (ips : List Bytes)
      → bad_ips parse_ip ips ≡ none
      → (ips ≢ []) × All (λ ip. parse_ip ip ≡ true) ips
  bad_ips-none [] h = cc
  bad_ips-none (ip ∷ ips) h = ((λ e. cc), bad_ip_from-none 0 (ip ∷ ips) h)

  none-bad_ips :
      (ips : List Bytes)
      → ips ≢ []
      → All (λ ip. parse_ip ip ≡ true) ips
      → bad_ips parse_ip ips ≡ none
  none-bad_ips [] h k = absurd (h refl)
  none-bad_ips (ip ∷ ips) h k = none-bad_ip_from 0 (ip ∷ ips) k

  -- `validate` finds no error exactly where the port is one from 1 to 65535, there is a target, and every
  -- target is an IP address.
  pub validate-none_iff : (c : Config) → (validate parse_ip c ≡ none) ↔ IsAccepted parse_ip c
  unfolding validate
  validate-none_iff c = (accepted, back)
    where
      accepted : validate parse_ip c ≡ none → IsAccepted parse_ip c
      accepted h = elim (Bool-cases (is_port c.listen_port)) [
        | inl good ↦
            let (any, all) = bad_ips-none c.target_ips (rw good at h) in
            record { port = is_port-true c.listen_port good; some_target = any; targets = all }
        | inr bad ↦ absurd (let e = rw bad at h in cc)
      ]

      back : IsAccepted parse_ip c → validate parse_ip c ≡ none
      back v =
          rw (true-is_port c.listen_port v.port) (none-bad_ips c.target_ips v.some_target v.targets)

  -- An accepted configuration is accepted without its API section too, and then the start of the API
  -- consumer panics.
  pub init_api_consumer_panics :
      (c : Config)
      → validate parse_ip c ≡ none
      → (validate parse_ip (record c { api = none }) ≡ none)
        × (init_api_consumer (record c { api = none }) ≡ panic)
  unfolding validate init_api_consumer
  init_api_consumer_panics c h = (h, refl)
