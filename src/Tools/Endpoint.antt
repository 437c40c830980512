-- ===== src/Tools/Endpoint.antt =====
-- The endpoints of src/tools/Tools.cpp, an address and a port in one number. `inet_aton` and `inet_ntoa` are
-- parameters; the machine is little-endian.
use libbundle.Prelude.{
  ℕ, ◌+◌, ◌*◌, ◌/◌, ◌%◌, ◌<◌, ◌≡◌, ◌∙◌, refl, ap, Option, none, some, Bytes, arith,
}

-- `htons` and `ntohs` of the low 16 bits.
abbrev pub swap16 : ℕ → ℕ
swap16 p = p % 256 * 256 + p / 256 % 256

module _ (inet_aton : Bytes → Option ℕ) (inet_ntoa : ℕ → Bytes) where
  -- `combineNetworkEndpoint`; `address` is the low half of the union, `port` the high one.
  unfoldable pub combine_network_endpoint : Bytes → ℕ → ℕ
  combine_network_endpoint address port = elim (inet_aton address) [
    | none ↦ 0
    | some s_addr ↦ s_addr + 0x100000000 * swap16 port
  ]

  -- `splitNetworkEndpoint`.
  unfoldable pub split_network_endpoint : ℕ → Bytes × ℕ
  split_network_endpoint value =
      (inet_ntoa (value % 0x100000000), swap16 (value / 0x100000000 % 0x10000))

  -- An address that the system reads and a port, combined and split, are the address as the system prints it
  -- and the port.
  pub split_network_endpoint-combine_network_endpoint :
      (address : Bytes) (s_addr port : ℕ)
      → inet_aton address ≡ some s_addr
      → s_addr < 0x100000000
      → port < 0x10000
      → split_network_endpoint (combine_network_endpoint address port) ≡ (inet_ntoa s_addr, port)
  unfolding split_network_endpoint combine_network_endpoint
  split_network_endpoint-combine_network_endpoint address s_addr port e h k =
      let low : (s_addr + 0x100000000 * swap16 port) % 0x100000000 ≡ s_addr = omega arith in
      let high : (s_addr + 0x100000000 * swap16 port) / 0x100000000 % 0x10000 ≡ swap16 port =
        omega arith in
      let back : swap16 (swap16 port) ≡ port = omega arith in
      let combined : combine_network_endpoint address port ≡ s_addr + 0x100000000 * swap16 port =
        ap (λ o. elim o [ none ↦ 0 | some n ↦ n + 0x100000000 * swap16 port ]) e in
      ap split_network_endpoint combined ∙ rw (low, high, back) refl
