-- ===== src/Network/Subnets/Carve.antt =====
-- The subnets that a tap network is cut into.
use native.Mathlib.Nat.{mod-eq_of_lt, mul-le-mul_right}
use lecrev.Prelude.{ℕ, ◌+◌, ◌*◌, ◌-◌, ◌^◌, ◌%◌, ◌<◌, ◌≤◌, ◌≡◌, false, arith, ap, ◌∙◌}
use lecrev.Network.Subnets.{subnet_base, exceeds_network, u32, octet, ipv4_to_uint32}

-- The four octets of a 32-bit address give it back.
octets_round_trip :
    (value : ℕ)
    → value < u32
    → ipv4_to_uint32 (octet value 24) (octet value 16) (octet value 8) (octet value 0) ≡ value
unfolding octet ipv4_to_uint32
octets_round_trip value h = omega arith

-- The capacity check counts in 32 bits: 2^30 subnets of four addresses are taken for none, so they
-- pass in every network, and any two devices 2^30 apart are given one subnet.
exceeds_network_wraps :
    (bits base i : ℕ)
    → (exceeds_network 1073741824 4 bits ≡ false)
      × (subnet_base base 4 (i + 1073741824) ≡ subnet_base base 4 i)
unfolding exceeds_network subnet_base
exceeds_network_wraps bits base i = (ground arith, omega arith)

subnet_exact :
    (base block i : ℕ)
    → i < u32
    → base + i * block < u32
    → subnet_base base block i ≡ base + i * block
unfolding subnet_base
subnet_exact base block i h k = ap (λ n. (base + n * block) % u32) (mod-eq_of_lt h) ∙ mod-eq_of_lt k

-- An accepted count fits into the network if the count itself does not wrap.
fits :
    (count block bits : ℕ)
    → exceeds_network count block bits ≡ false
    → count < u32
    → count * block < u32
    → count * block ≤ 2 ^ (32 - bits) % u32
unfolding exceeds_network
fits count block bits e c h =
    let exact = ap (λ n. n * block % u32) (mod-eq_of_lt c) ∙ mod-eq_of_lt h in ground (arith, exact)

-- Where the count, its addresses and the end of the network fit into 32 bits, an accepted count
-- gives each device a block of addresses behind those of the devices before it, and inside the
-- network.
pub subnets_disjoint :
    (base block bits count i j : ℕ)
    → exceeds_network count block bits ≡ false
    → count < u32
    → count * block < u32
    → base + 2 ^ (32 - bits) % u32 < u32
    → i < j
    → j < count
    → (subnet_base base block i + block ≤ subnet_base base block j)
      × (subnet_base base block j + block ≤ base + 2 ^ (32 - bits) % u32)
subnets_disjoint base block bits count i j e c h f p q =
    let room = fits count block bits e c h in
    let ij : (i + 1) * block ≤ j * block = mul-le-mul_right block (omega arith) in
    let jc : (j + 1) * block ≤ count * block = mul-le-mul_right block (omega arith) in
    let at_i = subnet_exact base block i (omega arith) (omega (arith, room, ij, jc)) in
    let at_j = subnet_exact base block j (omega arith) (omega (arith, room, ij, jc)) in
    (omega (arith, at_i, at_j, ij), omega (arith, at_j, room, jc))
