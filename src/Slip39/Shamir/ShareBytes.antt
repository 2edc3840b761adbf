-- ===== src/Slip39/Shamir/ShareBytes.antt =====
-- The data of the shares that `split` returns are bytes.
use piso_chain.Base.{ℕ, ◌-◌, ◌<◌, ◌≡◌, sym, ap, ◌∙◌, List, [], ◌∷◌, map, All, some, get_elem?}
use piso_chain.Slip39.Errors.{ok}
use piso_chain.Slip39.Polynomial.{eval}
use piso_chain.Slip39.Gf256.Bytes.{Byte, bytes_field}
use piso_chain.Slip39.Shamir.{Share, split}
use piso_chain.Slip39.Shamir.Split.{value, point}
use piso_chain.Slip39.Shamir.Shares.{share_at, polys, shares, split-eq, share_eq}
use piso_chain.Slip39.Shamir.Combine.{split_limits, ok-injective}

values_bytes : (ps : List (List Byte)) (x : ℕ) → All (λ b. b < 256) (map (λ p. value p x) ps)
unfolding value
values_bytes [] x = tt
values_bytes (p ∷ ps) x = ((eval bytes_field p (point x)).1, values_bytes ps x)

-- The data of the shares are bytes.
pub split-IsBytes :
    (random : ℕ → ℕ) (secret : List ℕ) (threshold total_shares : ℕ) (all : List Share) (s : Share)
    → ((n : ℕ) → random n < 256)
    → All (λ b. b < 256) secret
    → split random secret threshold total_shares ≡ ok all
    → get_elem? all (s.index - 1) ≡ some s
    → All (λ b. b < 256) s.bytes
split-IsBytes random secret threshold total_shares all s bounded secret_bytes done held =
    let (enough, fits, most) = split_limits random secret threshold total_shares all done in
    let ps : List (List Byte) =
      polys random bounded secret secret_bytes threshold total_shares enough fits most in
    let returned : all
        ≡ shares random bounded secret secret_bytes threshold total_shares enough fits most =
      ok-injective (
        sym done
        ∙ split-eq random bounded secret secret_bytes threshold total_shares enough fits most) in
    let made : s ≡ share_at threshold ps s.index =
      (share_eq random bounded secret secret_bytes threshold total_shares enough fits most s
        (ap (λ (t : List Share). get_elem? t (s.index - 1)) (sym returned) ∙ held)).0 in
    rw made (unfold share_at in values_bytes ps s.index)
