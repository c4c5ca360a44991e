-- ===== src/ComDataCheck/Tests.antt =====
-- The theorems on source/ComDataCheck.c at a packet of three bytes.
use alib_c.Common.{
  pos, ℕ, ◌≡◌, refl, Bool, true, false, none, some, [], ◌∷◌, arith, length, alib_ok,
}
use mathlib.Core.List.{flatten}
use alib_c.Common.Run.{ok}
use alib_c.BinaryBuffer.{BinaryBuffer}
use alib_c.BinaryBuffer.Growth.{IsValid, contents}
use alib_c.ComDataCheck.{
  ComDataCheck, cdc_complete, cdc_waiting, cdc_data_remaining, ntohl, htonl, got, append, recv,
  send,
}
use alib_c.ComDataCheck.Header.{Received}
use alib_c.ComDataCheck.Stream.{append-Received, append-surplus}
use alib_c.ComDataCheck.Recv.{send-all, send-recv}

abbrev all_room : ℕ → Bool
all_room n = true

abbrev empty : BinaryBuffer
empty = record { buff = none; len = 0; capacity = 0; min_cap = 64; max_expand = 1024 }

abbrev three : BinaryBuffer
three = record {
  buff = some (7 ∷ 8 ∷ 9 ∷ 0 ∷ []);
  len = 3;
  capacity = 4;
  min_cap = 4;
  max_expand = 1024;
}

abbrev receiver : ComDataCheck
receiver = record {
  data_len = 0;
  buff = empty;
  unread_buff = empty;
  input = 1;
  extended_data = none;
  free_extended_data = false;
}

abbrev sender : ComDataCheck
sender = record receiver { data_len = 3; buff = three; input = 0 }

empty-IsValid : IsValid empty
empty-IsValid = (refl, omega arith, omega arith, omega arith, omega arith, omega arith)

receiver-Received : Received [] receiver
receiver-Received = (refl, refl, empty-IsValid, refl, refl)

three-IsValid : IsValid three
three-IsValid = (refl, omega arith, omega arith, omega arith, omega arith, omega arith)

ntohl_two : ntohl (0 ∷ 0 ∷ 0 ∷ 2 ∷ 7 ∷ 8 ∷ 9 ∷ []) ≡ 2
unfolding ntohl
ntohl_two = refl

ntohl_three : ntohl (0 ∷ 0 ∷ 0 ∷ 3 ∷ []) ≡ 3
unfolding ntohl
ntohl_three = refl

packet :
    flatten {A = ℕ} ((0 ∷ 0 ∷ []) ∷ (0 ∷ 3 ∷ 7 ∷ []) ∷ (8 ∷ 9 ∷ []) ∷ [])
    ≡ 0 ∷ 0 ∷ 0 ∷ 3 ∷ 7 ∷ 8 ∷ 9 ∷ []
unfolding flatten
packet = refl

packet_sent :
    flatten {A = ℕ} ((0 ∷ 0 ∷ []) ∷ (0 ∷ 3 ∷ 7 ∷ []) ∷ (8 ∷ 9 ∷ []) ∷ [])
    ≡ flatten {A = ℕ} ((0 ∷ 0 ∷ 0 ∷ 3 ∷ []) ∷ (7 ∷ 8 ∷ 9 ∷ []) ∷ [])
unfolding flatten
packet_sent = refl

sent : send length (pos 4) sender ≡ ok (alib_ok, (0 ∷ 0 ∷ 0 ∷ 3 ∷ []) ∷ (7 ∷ 8 ∷ 9 ∷ []) ∷ [])
unfolding htonl
sent = send-all sender (pos 4) refl three-IsValid

append-surplus_example :
    (c' : ComDataCheck) × (append all_room 0 receiver (some (0 ∷ 0 ∷ 0 ∷ 2 ∷ 7 ∷ 8 ∷ 9 ∷ [])) 7
      ≡ ok (cdc_data_remaining, c'))
    × (c'.data_len ≡ 2)
    × IsValid c'.buff
    × IsValid c'.unread_buff
    × (contents c'.buff ≡ 7 ∷ 8 ∷ [])
    × (contents c'.unread_buff ≡ 9 ∷ [])
append-surplus_example =
    append-surplus all_room 0 (λ k. refl) receiver [] (0 ∷ 0 ∷ 0 ∷ 2 ∷ 7 ∷ 8 ∷ 9 ∷ []) 2
      receiver-Received empty-IsValid (omega arith) (omega arith) (omega arith) ntohl_two
      (omega arith) (omega arith)

append-Received_example :
    (c' : ComDataCheck) × (append all_room 0 receiver (some (0 ∷ 0 ∷ [])) 2 ≡ ok (cdc_waiting, c'))
    × Received (0 ∷ 0 ∷ []) c'
append-Received_example =
    append-Received all_room 0 (λ k. refl) receiver [] (0 ∷ 0 ∷ []) 3 receiver-Received
      (omega arith) (omega arith) (omega arith) (λ long. absurd (omega (arith, long))) (omega arith)

send-recv_example :
    (c' : ComDataCheck) × (recv all_room 0
        (pos 5)
        cdc_complete
        (got (0 ∷ 0 ∷ []) ∷ got (0 ∷ 3 ∷ 7 ∷ []) ∷ got (8 ∷ 9 ∷ []) ∷ [])
        receiver
      ≡ ok (cdc_complete, c'))
    × (contents c'.buff ≡ 7 ∷ 8 ∷ 9 ∷ [])
send-recv_example =
    send-recv all_room 0 sender receiver ((0 ∷ 0 ∷ 0 ∷ 3 ∷ []) ∷ (7 ∷ 8 ∷ 9 ∷ []) ∷ [])
      ((0 ∷ 0 ∷ []) ∷ (0 ∷ 3 ∷ 7 ∷ []) ∷ (8 ∷ 9 ∷ []) ∷ []) (pos 4) (pos 5) cdc_complete (λ k. refl)
      refl refl three-IsValid (omega arith) (omega arith) sent receiver-Received
      (omega arith, (omega arith, (omega arith, tt))) packet_sent
