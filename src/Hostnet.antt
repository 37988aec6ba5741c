-- ===== src/Hostnet.antt =====
-- crates/riscv-hostnet/src/lib.rs: the host that answers ARP and ICMP echo requests. Frames are lists
-- of bytes; the outer `none` of an answer is a panic of an index or a slice out of range.
pub mod Checksum
use tab_linux.Base.{
  ℕ, zero, suc, ◌+◌, ◌-◌, ◌*◌, ◌^◌, bit_or, Bool, true, false, not, ◌&&◌, ◌||◌, Option, none, some,
  List, [], ◌∷◌, ◌++◌, ltb, leb, ◌==◌, if◌then◌else◌, ◌>>=◌, length, get_elem?, take, drop, u16,
  u32, shr, low_bits, shl,
}

abbrev pub gateway_ip : List ℕ
gateway_ip = 10 ∷ 0 ∷ 2 ∷ 2 ∷ []

abbrev pub gateway_mac : List ℕ
gateway_mac = 0x52 ∷ 0x54 ∷ 0x00 ∷ 0x12 ∷ 0x34 ∷ 0x01 ∷ []

-- `&xs[first..last]`
abbrev pub slice : List ℕ → (first last : ℕ) → Option (List ℕ)
slice xs first last =
    if leb first last && leb last (length xs)
    then some (take (last - first) (drop first xs))
    else none

abbrev pub same_bytes : List ℕ → List ℕ → Bool
same_bytes [] [] = true
same_bytes (x ∷ xs) (y ∷ ys) = x == y && same_bytes xs ys
same_bytes xs ys = false

abbrev pub word_of : (high low : ℕ) → ℕ
word_of high low = bit_or (shl 16 high 8) low

-- `to_be_bytes` of 16 bits.
abbrev pub be_bytes : ℕ → List ℕ
be_bytes v = shr v 8 ∷ low_bits v 8 ∷ []

unfoldable pub be16 : List ℕ → ℕ → Option ℕ
be16 b o = do high ← get_elem? b o; low ← get_elem? b (suc o); some (word_of high low)

-- The loop over the words of two bytes, and the byte that is left over.
unfoldable pub sum_words : List ℕ → ℕ → ℕ
sum_words [] sum = sum
sum_words (high ∷ []) sum = u32 (sum + high * 2 ^ 8)
sum_words (high ∷ low ∷ rest) sum = sum_words rest (u32 (sum + word_of high low))

-- `while sum >> 16 != 0`, of which fuel bounds the rounds.
unfoldable pub fold_sum : (fuel sum : ℕ) → Option ℕ
fold_sum zero sum = none
fold_sum (suc fuel) sum =
    let rest : Option ℕ = fold_sum fuel (u32 (low_bits sum 16 + shr sum 16)) in
    if not (shr sum 16 == 0) then rest else some sum

-- Three tests are enough.
unfoldable pub checksum : List ℕ → Option ℕ
checksum bytes = do sum ← fold_sum 3 (sum_words bytes 0); some (2 ^ 16 - 1 - low_bits sum 16)

unfoldable pub arp_reply : (frame src_mac : List ℕ) → Option (Option (List ℕ))
arp_reply frame src_mac = if ltb (length frame) 42 then some none else do
  arp ← slice frame 14 42
  opcode ← be16 arp 6
  target ← slice arp 24 28
  sender_ip ← slice arp 14 18
  requester ← slice frame 6 12
  let out : List ℕ =
      src_mac
      ++ gateway_mac
      ++ (0x08 ∷ 0x06 ∷ 0 ∷ 1 ∷ 0x08 ∷ 0x00 ∷ 6 ∷ 4 ∷ 0 ∷ 2 ∷ [])
      ++ gateway_mac
      ++ gateway_ip
      ++ requester
      ++ sender_ip
  some (if not (opcode == 1) || not (same_bytes target gateway_ip) then none else some out)

-- The ICMP echo reply with its checksum.
unfoldable pub echo_reply : List ℕ → Option (List ℕ)
echo_reply icmp = do
  id_seq ← slice icmp 4 8
  payload ← slice icmp 8 (length icmp)
  let icmp_out : List ℕ = (0 ∷ 0 ∷ 0 ∷ 0 ∷ []) ++ id_seq ++ payload
  ck ← checksum icmp_out
  some (take 2 icmp_out ++ be_bytes ck ++ drop 4 icmp_out)

-- The IPv4 header with its checksum.
unfoldable pub ip_header : (total_len : ℕ) → (src_ip : List ℕ) → Option (List ℕ)
ip_header total_len src_ip = do
  let iph : List ℕ =
      (0x45 ∷ 0x00 ∷ [])
      ++ be_bytes (u16 total_len)
      ++ (0 ∷ 0 ∷ 0x40 ∷ 0x00 ∷ 64 ∷ 1 ∷ 0 ∷ 0 ∷ [])
      ++ gateway_ip
      ++ src_ip
  ck ← checksum iph
  some (take 10 iph ++ be_bytes ck ++ drop 12 iph)

-- An echo request for the gateway, with the IPv4 header of `ihl` bytes.
unfoldable pub answer_echo : (ip src_mac : List ℕ) → (ihl : ℕ) → Option (Option (List ℕ))
answer_echo ip src_mac ihl = do
  icmp ← slice ip ihl (length ip)
  kind ← get_elem? icmp 0
  src_ip ← slice ip 12 16
  icmp_out ← echo_reply icmp
  iph ← ip_header (20 + length icmp_out) src_ip
  let out : List ℕ = src_mac ++ gateway_mac ++ (0x08 ∷ 0x00 ∷ []) ++ iph ++ icmp_out
  some (if not (kind == 8) then none else some out)

unfoldable pub icmp_reply : (frame src_mac : List ℕ) → Option (Option (List ℕ))
icmp_reply frame src_mac =
    let ip : List ℕ = drop 14 frame in
    if ltb (length frame) 14 || ltb (length ip) 20 then some none else do
      first ← get_elem? ip 0
      protocol ← get_elem? ip 9
      target ← slice ip 16 20
      let ihl : ℕ = low_bits first 4 * 4
      if not (shr first 4 == 4)
            || not (protocol == 1)
            || ltb (length ip) (ihl + 8)
            || not (same_bytes target gateway_ip)
          then some none
          else answer_echo ip src_mac ihl

unfoldable pub respond : List ℕ → Option (Option (List ℕ))
respond frame = if ltb (length frame) 14 then some none else do
  src_mac ← slice frame 6 12
  kind ← be16 frame 12
  if kind == 0x0806
      then arp_reply frame src_mac
      else if kind == 0x0800
      then icmp_reply frame src_mac
      else some none
