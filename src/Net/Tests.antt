-- ===== src/Net/Tests.antt =====
-- networking/mynet_drv.c: two packets with a header of one byte.
use kernel_examples.Prelude.{ℕ, ◌+◌, ◌≡◌, arith, true, false, List, [], ◌∷◌, ◌++◌, length}
use kernel_examples.Kernel.{u64, nothing}
use kernel_examples.Net.{Device, Call, xmit, ioctl, ndo_open, my_setup, call_all}
use kernel_examples.Net.Laws.{NetEnds, looped, call_all_lem}

abbrev one_byte : List ℕ → ℕ × List ℕ
one_byte [] = (0, [])
one_byte (b ∷ bytes) = (b, bytes)

abbrev mynet0 : Device
mynet0 = record {
  tx_packets = 0;
  rx_packets = 0;
  trans_start = 0;
  queue_started = false;
  is_up = true;
  noarp = false;
  dev_addr = [];
  backlog = [];
}

abbrev calls : List Call
calls = ndo_open ∷ xmit 100 (8 ∷ 1 ∷ 2 ∷ []) ∷ ioctl 7 ∷ xmit 101 (6 ∷ 3 ∷ []) ∷ []

call_all_lem_example :
    NetEnds one_byte mynet0 nothing
    × ((call_all one_byte calls (my_setup mynet0)).backlog ≡ [] ++ looped one_byte calls)
    × ((call_all one_byte calls (my_setup mynet0)).tx_packets
        ≡ u64 (0 + length (looped one_byte calls)))
    × ((call_all one_byte calls (my_setup mynet0)).rx_packets
        ≡ u64 (0 + length (looped one_byte calls)))
    × ((call_all one_byte calls (my_setup mynet0)).dev_addr ≡ 0 ∷ 1 ∷ 2 ∷ 3 ∷ 4 ∷ 5 ∷ [])
    × ((call_all one_byte calls (my_setup mynet0)).noarp ≡ true)
call_all_lem_example = call_all_lem one_byte calls mynet0 nothing (omega arith) (omega arith)
