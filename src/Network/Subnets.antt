-- ===== src/Network/Subnets.antt =====
-- internal/firecracker/microvm/network_pool.go: the subnets of a tap pool. An IPv4 address is its
-- 32-bit number; arithmetic on uint32 wraps.
pub mod Carve
use Prim.Native.String.{◌++◌}
use lecrev.Prelude.{
  ℕ, zero, suc, ◌+◌, ◌-◌, ◌*◌, ◌/◌, ◌%◌, ◌^◌, String, Bool, ◌||◌, List, [], ◌∷◌, ltb, leb, str_eq,
  if◌then◌else◌,
}
use lecrev.Prelude.Text.{decimal, trim_space}
use lecrev.Errors.{Result, ok, err, other}
use lecrev.Network.Pool.{NetworkConfig}

abbrev pub u32 : ℕ
u32 = 4294967296

-- netip.Prefix, as ParsePrefix gives it: an IPv4 address with its length, or an IPv6 one.
pub data Prefix : Type 0 where
  ipv4 : ℕ → ℕ → Prefix
  ipv6 : Prefix

unfoldable pub octet : ℕ → ℕ → ℕ
octet value shift = value / 2 ^ shift % 256

-- uint32ToIPv4(value).String().
unfoldable pub ipv4_text : ℕ → String
unfolding octet
ipv4_text value =
    decimal (octet value 24)
    ++ ("."
        ++ (decimal (octet value 16)
            ++ ("." ++ (decimal (octet value 8) ++ ("." ++ decimal (octet value 0))))))

-- ipv4ToUint32.
unfoldable pub ipv4_to_uint32 : ℕ → ℕ → ℕ → ℕ → ℕ
ipv4_to_uint32 a b c d = a * 2 ^ 24 + b * 2 ^ 16 + c * 2 ^ 8 + d

hex_digit : ℕ → String
hex_digit n =
    if ltb n 10
    then decimal n
    else if leb n 10
    then "a"
    else if leb n 11
    then "b"
    else if leb n 12
    then "c"
    else if leb n 13
    then "d"
    else if leb n 14
    then "e"
    else "f"

-- The verb %02x on a byte.
hex_byte : ℕ → String
unfolding hex_digit
hex_byte n = hex_digit (n / 16) ++ hex_digit (n % 16)

-- guestMACForIP on an IPv4 address.
unfoldable pub guest_mac_for_ip : ℕ → String
unfolding octet hex_byte
guest_mac_for_ip value =
    "06:00:"
    ++ (hex_byte (octet value 24)
        ++ (":"
            ++ (hex_byte (octet value 16)
                ++ (":" ++ (hex_byte (octet value 8) ++ (":" ++ hex_byte (octet value 0)))))))

-- ^uint32(0) << (32 - bits), and 0 for no bits.
unfoldable pub prefix_mask : ℕ → ℕ
prefix_mask bits = if ltb 0 bits then (u32 - 1) * 2 ^ (32 - bits) % u32 else 0

unfoldable pub prefix_length_to_mask : ℕ → String
unfolding prefix_mask ipv4_text
prefix_length_to_mask bits = ipv4_text (prefix_mask bits)

-- The first address of the i-th subnet.
unfoldable pub subnet_base : ℕ → ℕ → ℕ → ℕ
subnet_base base block i = (base + i % u32 * block) % u32

abbrev tap_config : String → ℕ → ℕ → ℕ → ℕ → NetworkConfig
tap_config device_prefix base block subnet_prefix i =
    let subnet = subnet_base base block i in
    record {
      tap_device = device_prefix ++ decimal i;
      guest_mac = guest_mac_for_ip ((subnet + 2) % u32);
      guest_ip = ipv4_text ((subnet + 2) % u32);
      gateway_ip = ipv4_text ((subnet + 1) % u32);
      netmask = prefix_length_to_mask subnet_prefix;
    }

-- The loop `for i := 0; i < count; i++`, with `left` rounds to go.
unfoldable pub tap_loop : String → ℕ → ℕ → ℕ → ℕ → ℕ → List NetworkConfig
unfolding subnet_base guest_mac_for_ip ipv4_text prefix_length_to_mask
tap_loop device_prefix base block subnet_prefix i zero = []
tap_loop device_prefix base block subnet_prefix i (suc left) =
    tap_config device_prefix base block subnet_prefix i
    ∷ tap_loop device_prefix base block subnet_prefix (suc i) left

abbrev pub block_size : ℕ → ℕ
block_size subnet_prefix = 2 ^ (32 - subnet_prefix) % u32

-- The capacity check: the subnets asked for, in uint32, against the network's size.
unfoldable pub exceeds_network : ℕ → ℕ → ℕ → Bool
exceeds_network count block bits = ltb (2 ^ (32 - bits) % u32) (count % u32 * block % u32)

-- The masked address of a prefix.
abbrev pub masked : ℕ → ℕ → ℕ
masked addr bits = addr - addr % 2 ^ (32 - bits)

abbrev carve : String → ℕ → ℕ → Prefix → Result (List NetworkConfig)
carve device_prefix count subnet_prefix ipv6 = err (other "tap network cidr must be ipv4")
carve device_prefix count subnet_prefix (ipv4 addr bits) =
    if ltb subnet_prefix bits || ltb 30 subnet_prefix
    then err (other ("tap subnet prefix must be between " ++ (decimal bits ++ " and 30")))
    else if exceeds_network count (block_size subnet_prefix) bits
    then err (
        other (
          "tap network cidr "
          ++ (ipv4_text (masked addr bits)
              ++ ("/"
                  ++ (decimal bits
                      ++ (" does not have capacity for "
                          ++ (decimal count
                              ++ (" /" ++ (decimal subnet_prefix ++ " subnets")))))))))
    else ok
        (tap_loop device_prefix (masked addr bits) (block_size subnet_prefix) subnet_prefix 0 count)

abbrev parsed : String → ℕ → ℕ → Result Prefix → Result (List NetworkConfig)
parsed device_prefix count subnet_prefix (err e) = err e
parsed device_prefix count subnet_prefix (ok p) = carve device_prefix count subnet_prefix p

-- buildTapPoolConfigs on the parsed network; `count` and `subnet_prefix` are not negative.
unfoldable pub build_tap_pool_configs : String → ℕ → Result Prefix → ℕ → Result (List NetworkConfig)
unfolding tap_loop exceeds_network
build_tap_pool_configs device_prefix zero network subnet_prefix = ok []
build_tap_pool_configs device_prefix (suc n) network subnet_prefix =
    parsed (if str_eq (trim_space device_prefix) "" then "tap" else device_prefix) (suc n)
      (if leb subnet_prefix 0 then 30 else subnet_prefix) network
