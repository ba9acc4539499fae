-- ===== src/Tests/Utilities.antt =====
-- Examples for src/utils and for addresses as text.
use rust_user_net.Base.{ℕ, ◌+◌, ◌-◌, ◌^◌, ◌<◌, ◌≡◌, refl, [], ◌∷◌, some, done, arith}
use rust_user_net.Utils.Cksum.{cksum16}
use rust_user_net.Utils.Cksum.Sum.{ones, word_sum, cksum16_lem}
use rust_user_net.Utils.Cksum.Stamp.{stamp, cksum16-stamp}
use rust_user_net.Utils.LinkedList.{LinkedList, nil, node, push, iter}
use rust_user_net.Ip.Addr.{ip_addr_to_bytes, ip_addr_to_str}
use rust_user_net.Ip.Addr.RoundTrip.{ip_addr_to_bytes-ip_addr_to_str}
use rust_user_net.Tests.{addr_one, text}

cksum16_lem_example : cksum16 text 3 0 ≡ done (0xffff - ones (0 + word_sum 3 text))
cksum16_lem_example = cksum16_lem text 3 0 (omega arith) (omega arith) (omega arith)

cksum16-stamp_example :
    (sum : ℕ) × (cksum16 (104 ∷ 105 ∷ 0 ∷ 0 ∷ 33 ∷ []) 5 17 ≡ done sum)
    × (sum < 2 ^ 16)
    × (cksum16 (stamp 2 sum (104 ∷ 105 ∷ 0 ∷ 0 ∷ 33 ∷ [])) 5 17 ≡ done 0)
cksum16-stamp_example =
    cksum16-stamp (104 ∷ 105 ∷ 0 ∷ 0 ∷ 33 ∷ []) 5 17 2 (omega arith) (omega arith) (omega arith)
      (omega arith) (refl, refl, refl) (omega arith)

ip_addr_to_bytes-ip_addr_to_str_example :
    ip_addr_to_bytes (ip_addr_to_str addr_one) ≡ done (some addr_one)
ip_addr_to_bytes-ip_addr_to_str_example = ip_addr_to_bytes-ip_addr_to_str addr_one (omega arith)

-- The text of an address.
ip_addr_to_str_test : ip_addr_to_str addr_one ≡ 49 ∷ 57 ∷ 50 ∷ 46 ∷ 48 ∷ 46 ∷ 50 ∷ 46 ∷ 49 ∷ []
unfolding ip_addr_to_str
ip_addr_to_str_test = refl

abbrev two_items : LinkedList ℕ
two_items = record { head = node 1 (node 2 nil) }

push_test : iter (push two_items 3) ≡ 1 ∷ 2 ∷ 3 ∷ []
unfolding push
push_test = refl
