-- ===== src/Agent/Packages/Ids.antt =====
-- The package identifiers of internal/agent/packages.go.
use servora.Prelude.{
  Text, [], all_of, false, nat_beq, not, refl, some, split_at-append, split_at-clean, true, ◌++◌,
  ◌==◌, ◌∷◌, ◌≡◌, text_eq,
}
use servora.Agent.Packages.{Codec, package_id, decode_package_id}

-- A part of an identifier: some text without a zero byte.
pub record IsPart (s : Text) : Type 0 where
  pub clean : all_of (λ c. not (nat_beq c 0)) s ≡ true
  pub given : (s == []) ≡ false

-- An identifier is decoded to the manager, the name and the architecture that it was made of, if
-- these are not empty and have no zero byte, where base64 decodes what it encodes.
pub decode_package_id-package_id :
    (codec : Codec) (m n a : Text)
    → ((s : Text) → codec.decode (codec.encode s) ≡ some s)
    → IsPart m
    → IsPart n
    → IsPart a
    → decode_package_id codec (package_id codec m n a) ≡ some (m, n, a)
unfolding decode_package_id package_id
decode_package_id-package_id codec m n a inverse hm hn ha =
    rw
      (
        inverse (m ++ (0 ∷ (n ++ (0 ∷ a)))),
        split_at-append 0 m (n ++ (0 ∷ a)) hm.clean,
        split_at-append 0 n a hn.clean,
        split_at-clean 0 a ha.clean,
        hm.given,
        hn.given,
        ha.given,
      )
      refl
