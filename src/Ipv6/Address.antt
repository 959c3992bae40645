-- ===== src/Ipv6/Address.antt =====
-- include/ipv6.h: the comparison of addresses, and the first word of the header.
use level_ip.Prelude.{true, false, List, [], ◌∷◌, ℕ, ◌≡◌, ◌≢◌, refl, arith, ◌<◌}
use level_ip.Ipv6.{
  same, ipv6_addr_equal, Ipv6Hdr, ipv6_hdr_version, ipv6_hdr_tclass, ipv6_hdr_flowlabel,
  ipv6_hdr_set_vtc_flow,
}

pub same_refl : (a : List ℕ) → same a a ≡ true
unfolding same
same_refl [] = refl
same_refl (x ∷ a) = ground (arith, same_refl a)

pub eq_of_same : (a b : List ℕ) → same a b ≡ true → a ≡ b
unfolding same
eq_of_same [] [] h = refl
eq_of_same [] (y ∷ b) h = cc
eq_of_same (x ∷ a) [] h = cc
eq_of_same (x ∷ a) (y ∷ b) h = ground (arith, eq_of_same a b)

-- Two addresses are equal exactly when the comparison says so.
pub addr_equal_self : (a : List ℕ) → ipv6_addr_equal a a ≡ true
unfolding ipv6_addr_equal
addr_equal_self a = same_refl a

pub eq_of_addr_equal : (a b : List ℕ) → ipv6_addr_equal a b ≡ true → a ≡ b
unfolding ipv6_addr_equal
eq_of_addr_equal a b h = eq_of_same a b h

pub addr_equal_ne : (a b : List ℕ) → a ≢ b → ipv6_addr_equal a b ≡ false
addr_equal_ne a b n = ground (arith, eq_of_addr_equal a b)

-- The three parts of the first word read back as they were written.
pub set_vtc_flow_fields :
    (h : Ipv6Hdr) (version tclass flow_label : ℕ)
    → version < 16
    → tclass < 256
    → flow_label < 0x10_0000
    → let w = ipv6_hdr_set_vtc_flow h version tclass flow_label in
      (ipv6_hdr_version w ≡ version)
      × (ipv6_hdr_tclass w ≡ tclass)
      × (ipv6_hdr_flowlabel w ≡ flow_label)
unfolding ipv6_hdr_version ipv6_hdr_tclass ipv6_hdr_flowlabel ipv6_hdr_set_vtc_flow
set_vtc_flow_fields h version tclass flow_label v t f = (omega arith, omega arith, omega arith)
