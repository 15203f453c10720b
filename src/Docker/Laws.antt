-- ===== src/Docker/Laws.antt =====
-- Which address pkg/docker/docker.go finds for a container.
use jumble.Shared.{
  String, false, List, [], ◌∷◌, ◌≡◌, ◌≢◌, ◌⊎◌, inl, inr, refl, sym, ◌∙◌, All, Any, ◌==◌, Bool-cases,
  eq_iff,
}
use jumble.Go.Error.{Error, ok, err}
use jumble.Docker.{Binding, pick}

unequal : (a b : String) → (a == b) ≡ false → a ≢ b
unequal a b differ h = absurd (cc (sym ((eq_iff a b).1 h) ∙ differ))

-- The address of a binding: an empty host is "localhost", and its port is lost.
abbrev pub Addresses : String → String → Binding → Type 0
Addresses ip port b =
    (b.host_ip ≢ "::")
    × (((b.host_ip ≡ "") × (ip ≡ "localhost") × (port ≡ ""))
        ⊎ ((b.host_ip ≢ "") × (ip ≡ b.host_ip) × (port ≡ b.host_port)))

-- The loop finds the address of a binding that is not IPv6's "::", or fails when there is none.
pub pick_lem :
    (id : String) (bs : List Binding)
    → ((ip : String) × (port : String) × (pick id bs ≡ ok (ip, port)) × Any (Addresses ip port) bs)
      ⊎ (((e : Error) × (pick id bs ≡ err e)) × All (λ b. b.host_ip ≡ "::") bs)
unfolding pick
pick_lem id [] = inr ((_, refl), tt)
pick_lem id (b ∷ bs) = elim (Bool-cases (b.host_ip == "::")) [
  | inl six ↦ elim (pick_lem id bs) [
    | inl (ip, port, e, found) ↦ rw six (inl (ip, port, e, inr found))
    | inr ((w, e), all) ↦ rw six (inr ((w, e), ((eq_iff _ _).0 six, all)))
  ]
  | inr four ↦ elim (Bool-cases (b.host_ip == "")) [
    | inl empty ↦
        rw (four, empty)
          (inl (_, _, refl, inl (unequal _ _ four, inl ((eq_iff _ _).0 empty, refl, refl))))
    | inr given ↦
        rw (four, given)
          (inl (_, _, refl, inl (unequal _ _ four, inr (unequal _ _ given, refl, refl))))
  ]
]
