-- ===== src/ComDataCheck.antt =====
-- source/ComDataCheck.c: a packet, which is four bytes of length in network order and then its data, put
-- together from the pieces that a connection delivers. `room` and `junk` are those of the byte buffers.
-- Each function is what stands behind its check of the object for NULL.
pub mod Header
pub mod Stream
pub mod Recv
mod Tests
use alib_c.Common.{
  ℕ, zero, suc, ◌+◌, ◌-◌, ◌*◌, ◌/◌, ◌%◌, ◌^◌, Bool, true, false, Option, none, some, List, [], ◌∷◌,
  length, drop, ltb, ◌==◌, if◌then◌else◌, add_size, sub_size, size_of_int32, ℤ, pos, negsuc, ◌||◌,
  alib_ok, alib_bad_arg, alib_internal_max_reached, alib_file_write_err, alib_file_err,
  alib_timeout,
}
use alib_c.Common.Run.{Run, ok, fault, ◌>>=◌, read}
use alib_c.BinaryBuffer.{
  BinaryBuffer, Result, memory, append as append_bytes, remove as remove_bytes,
  clear as clear_bytes, clear_no_resize,
}
use alib_c.BinaryBuffer.Life.{extract_buffer, new as new_buffer, del as del_buffer}

-- `data_len` holds the 32 bits of an int32_t; the callback that frees `extended_data` is set or not.
pub record ComDataCheck : Type 0 where
  pub data_len : ℕ
  pub buff : BinaryBuffer
  pub unread_buff : BinaryBuffer
  pub input : ℕ
  pub extended_data : Option ℕ
  pub free_extended_data : Bool

abbrev pub Status : Type 0
Status = ℤ × ComDataCheck

abbrev pub cdc_complete : ℤ
cdc_complete = pos 0

abbrev pub cdc_waiting : ℤ
cdc_waiting = pos 1

abbrev pub cdc_data_remaining : ℤ
cdc_data_remaining = pos 2

-- `sock <= 0`
abbrev pub bad_socket : ℤ → Bool
bad_socket (pos zero) = true
bad_socket (pos (suc n)) = false
bad_socket (negsuc n) = true

-- ntohl() of the first four bytes
pub ntohl : List ℕ → ℕ
ntohl (a ∷ b ∷ c ∷ d ∷ _) = a * 2 ^ 24 + b * 2 ^ 16 + c * 2 ^ 8 + d
ntohl _ = 0

-- The bytes of htonl()
pub htonl : ℕ → List ℕ
htonl n = n / 2 ^ 24 % 256 ∷ n / 2 ^ 16 % 256 ∷ n / 2 ^ 8 % 256 ∷ n % 256 ∷ []

-- A size_t put into a char, which is signed, and taken as a size_t again.
pub through_char : ℕ → ℕ
through_char n = if ltb (n % 256) 128 then n % 256 else n % 256 + (2 ^ 64 - 256)

-- `if(err) return(err);` after BinaryBuffer_append() to `buff`
pub filled : ComDataCheck → Result → (ComDataCheck → Run Status) → Run Status
filled c (pos zero, b) next = next (record c { buff = b })
filled c (code, b) next = ok (code, record c { buff = b })

-- `if(recv(…) <= 0) break;` and the test of the loop of ComDataCheck_recv()
pub while_waiting : Status → (ComDataCheck → Run Status) → Run Status
while_waiting (pos (suc zero), c) next = next c
while_waiting r next = ok r

pub timed_out : Status → Status
timed_out (pos (suc zero), c) = (alib_timeout, c)
timed_out r = r

-- What a call of recv() does: it gives bytes, none when the connection has ended, or fails with -1, which
-- the test `recv_len <= 0` on a size_t takes for a length; `left` is what then lies in the local array.
pub data Received : Type 0 where
  got : List ℕ → Received
  failed : (left : List ℕ) → Received

-- The object, if neither buffer is missing
pub both : ℕ → Option BinaryBuffer → Option BinaryBuffer → Option ComDataCheck
both input (some b) (some u) = some (record {
  data_len = 0;
  buff = b;
  unread_buff = u;
  input = input;
  extended_data = none;
  free_extended_data = false;
})
both input _ _ = none

module _ (room : ℕ → Bool) (junk : ℕ) where
  -- ComDataCheck_check() on an input object, for the length as a size_t. It looks at no error.
  pub check_input : ComDataCheck → ℕ → Run Status
  check_input c n =
      if ltb c.buff.len n
      then ok (cdc_waiting, c)
      else if c.buff.len == n
      then ok (cdc_complete, c)
      else do
        unread ←
            append_bytes room junk c.unread_buff (some (drop n (memory c.buff.buff)))
              (sub_size c.buff.len n)
        left ← remove_bytes c.buff n c.buff.len
        ok (cdc_data_remaining, record c { buff = left.1; unread_buff = unread.1 })

  pub check : ComDataCheck → Run Status
  check c = if c.input == 0 then ok (cdc_complete, c) else check_input c (size_of_int32 c.data_len)

  -- Bytes behind the header, and the status they lead to
  pub fill : ComDataCheck → List ℕ → ℕ → Run Status
  fill c src n = do r ← append_bytes room junk c.buff (some src) n; filled c r check

  -- Bytes of a header that is not followed by others yet
  pub hold : ComDataCheck → List ℕ → ℕ → Run Status
  hold c src n = do
    r ← append_bytes room junk c.buff (some src) n
    filled c r (λ c'. ok (cdc_waiting, c'))

  -- The end of a header of which the buffer holds the beginning
  pub parse_held : List ℕ → ℕ → ℕ → ComDataCheck → Run Status
  parse_held src n diff c = do
    header ← read (memory c.buff.buff) 0 4
    fill (record c { data_len = ntohl header; buff = clear_no_resize c.buff }) (drop diff src)
        (sub_size n diff)

  pub with_header : ComDataCheck → List ℕ → ℕ → Run Status
  with_header c src n =
      if c.buff.len == 0
      then (do
        header ← read src 0 4
        fill (record c { data_len = ntohl header }) (drop 4 src) (sub_size n 4))
      else do
        let diff = through_char (sub_size 4 c.buff.len)
        r ← append_bytes room junk c.buff (some src) diff
        filled c r (parse_held src n diff)

  pub append_input : ComDataCheck → List ℕ → ℕ → Run Status
  append_input c src n =
      if c.data_len == 0
      then if ltb 4 (add_size n c.buff.len) then with_header c src n else hold c src n
      else fill c src n

  pub output_len : ComDataCheck → Run Status
  output_len c =
      if ltb (2 ^ 31 - 1) c.buff.len
      then ok (alib_internal_max_reached, c)
      else ok (cdc_complete, record c { data_len = c.buff.len })

  pub append_output : ComDataCheck → List ℕ → ℕ → Run Status
  append_output c src n = do r ← append_bytes room junk c.buff (some src) n; filled c r output_len

  -- ComDataCheck_append() from `if(!data || !data_len)` on
  pub append_read : ComDataCheck → Option (List ℕ) → ℕ → Run Status
  append_read c none n = check c
  append_read c (some src) n =
      if n == 0
      then check c
      else if c.input == 0
      then append_output c src n
      else append_input c src n

  -- ComDataCheck_append() finds `unread_buff` empty when this calls it, and goes on at append_read.
  pub process_buffered_data : ComDataCheck → Run Status
  process_buffered_data c =
      let (bytes, unread) = extract_buffer c.unread_buff in
      append_read (record c { unread_buff = unread }) bytes c.unread_buff.len

  -- The packet is complete before the new bytes, which wait.
  pub append_unread : ℤ → ComDataCheck → Option (List ℕ) → ℕ → Run Status
  append_unread code c src n = do
    r ← append_bytes room junk c.unread_buff src n
    ok (if n == 0 then code else cdc_data_remaining, record c { unread_buff = r.1 })

  pub append_after : Status → Option (List ℕ) → ℕ → Run Status
  append_after (pos zero, c) src n = append_unread cdc_complete c src n
  append_after (pos (suc (suc zero)), c) src n = append_unread cdc_data_remaining c src n
  append_after (code, c) src n = append_read c src n

  pub append : ComDataCheck → Option (List ℕ) → ℕ → Run Status
  append c src n =
      if c.unread_buff.len == 0
      then append_read c src n
      else do r ← process_buffered_data c; append_after r src n

  pub clear : ComDataCheck → ComDataCheck
  clear c = record c { data_len = 0; buff = clear_bytes room junk c.buff }

  -- The loop of ComDataCheck_recv(). `rval` is what its local holds, at first nothing that has been set.
  pub recv_from : (rval : ℤ) → List Received → ComDataCheck → Run Status
  recv_from rval [] c = ok (rval, c)
  recv_from rval (failed left ∷ received) c = do
    r ← append c (some left) (2 ^ 64 - 1)
    while_waiting r (recv_from cdc_waiting received)
  recv_from rval (got bytes ∷ received) c =
      let next = recv_from cdc_waiting received in
      if length bytes == 0
      then ok (rval, c)
      else do r ← append c (some bytes) (length bytes); while_waiting r next

  pub recv : (sock rval : ℤ) → List Received → ComDataCheck → Run Status
  recv sock rval received c =
      if bad_socket sock || c.input == 0 then ok (alib_bad_arg, c) else recv_from rval received c

  -- ComDataCheck_recv_timeout(); `refused` says whether set_sock_recv_timeout() fails.
  pub recv_timeout : (refused : Bool) (sock rval : ℤ) → List Received → ComDataCheck → Run Status
  recv_timeout refused sock rval received c =
      if refused then ok (alib_file_err, c) else do r ← recv sock rval received c; ok (timed_out r)

  -- newComDataCheck(); the flags say whether its three calls of malloc() succeed.
  pub new : Bool → Bool → Bool → ℕ → Run (Option ComDataCheck)
  new object first second input = do
    b ← new_buffer room junk first
    u ← new_buffer room junk second
    ok (if object then both input b u else none)

-- ComDataCheck_send(): the code, and what send() was given. `accepts` is what send() returns for the bytes.
pub send : (accepts : List ℕ → ℕ) → (sock : ℤ) → ComDataCheck → Run (ℤ × List (List ℕ))
send accepts sock c =
    let header = htonl (c.buff.len % 2 ^ 32) in
    let sent =
      (if accepts header == 4
        then (do
          bytes ← read (memory c.buff.buff) 0 c.buff.len
          ok (
            if accepts bytes == c.buff.len then alib_ok else alib_file_write_err,
            header ∷ bytes ∷ [],
          ))
        else ok (alib_file_write_err, header ∷ [])) in
    if bad_socket sock then ok (alib_bad_arg, []) else sent

pub set_mode : ComDataCheck → ℕ → ComDataCheck
set_mode c input =
    if c.input == input
    then c
    else record c { input = input; data_len = if input == 0 then c.buff.len % 2 ^ 32 else 0 }

-- What the callback is given, if it is called
pub freed_data : Option ℕ → Bool → List ℕ
freed_data (some p) true = p ∷ []
freed_data _ _ = []

pub set_extended_data : ComDataCheck → Option ℕ → Bool → List ℕ × ComDataCheck
set_extended_data c p callback = (
  freed_data c.extended_data c.free_extended_data,
  record c { extended_data = p; free_extended_data = callback },
)

pub get_buffer : ComDataCheck → BinaryBuffer
get_buffer c = c.buff

pub get_expected_len : ComDataCheck → ℕ
get_expected_len c = c.data_len

pub get_extended_data : ComDataCheck → Option ℕ
get_extended_data c = c.extended_data

-- delComDataCheck(): what the callback is given, and the memory of the two buffers
pub del : Option ComDataCheck → List ℕ × List (Option (List ℕ))
del none = ([], [])
del (some c) = (
  freed_data c.extended_data c.free_extended_data,
  (del_buffer (some c.buff)).0 ∷ (del_buffer (some c.unread_buff)).0 ∷ [],
)
