-- ===== src/Tests/Network.antt =====
-- The host network at a sum that carries twice.
use tab_linux.Base.{ℕ, ◌%◌, ◌^◌, ◌<◌, ◌≡◌, refl, some, List, [], ◌∷◌, ◌++◌, arith}
use tab_linux.Hostnet.{
  arp_reply, be16, checksum, gateway_ip, gateway_mac, respond, sum_words, fold_sum,
}
use tab_linux.Hostnet.Checksum.{fold_sum-ends}

fold_sum-ends_example :
    (folded : ℕ) × (fold_sum 3 0xffffffff ≡ some folded)
    × (folded < 2 ^ 16)
    × (folded % 65535 ≡ 0xffffffff % 65535)
fold_sum-ends_example = fold_sum-ends 0xffffffff (omega arith)

-- A request for the address of the host, and the answer to it.
abbrev guest_mac : List ℕ
guest_mac = 0x52 ∷ 0x54 ∷ 0x00 ∷ 0x12 ∷ 0x34 ∷ 0x56 ∷ []

abbrev arp_request : List ℕ
arp_request =
    (255 ∷ 255 ∷ 255 ∷ 255 ∷ 255 ∷ 255 ∷ [])
    ++ guest_mac
    ++ (8 ∷ 6 ∷ 0 ∷ 1 ∷ 8 ∷ 0 ∷ 6 ∷ 4 ∷ 0 ∷ 1 ∷ [])
    ++ guest_mac
    ++ (10 ∷ 0 ∷ 2 ∷ 15 ∷ 0 ∷ 0 ∷ 0 ∷ 0 ∷ 0 ∷ 0 ∷ 10 ∷ 0 ∷ 2 ∷ 2 ∷ [])

arp_answer_is_reply :
    respond arp_request
    ≡ some (
        some (
          guest_mac
          ++ gateway_mac
          ++ (8 ∷ 6 ∷ 0 ∷ 1 ∷ 8 ∷ 0 ∷ 6 ∷ 4 ∷ 0 ∷ 2 ∷ [])
          ++ gateway_mac
          ++ gateway_ip
          ++ guest_mac
          ++ (10 ∷ 0 ∷ 2 ∷ 15 ∷ [])))
unfolding respond arp_reply be16
arp_answer_is_reply = refl

-- The checksum of an even and of an odd number of bytes.
checksum_of_words : checksum (0x45 ∷ 0x00 ∷ 0xff ∷ 0xff ∷ []) ≡ some 0xbaff
unfolding checksum fold_sum sum_words
checksum_of_words = refl

checksum_of_odd_bytes : checksum (0x12 ∷ 0x34 ∷ 0x56 ∷ []) ≡ some 0x97cb
unfolding checksum fold_sum sum_words
checksum_of_odd_bytes = refl
