-- ===== src/Net.antt =====
-- networking/mynet_drv.c: a network device that receives what it sends. What it prints is left out,
-- and eth_type_trans is the kernel's, an argument: from the bytes of a packet, its protocol and the
-- bytes behind its header.
pub mod Laws
mod Tests
use kernel_examples.Prelude.{
  ℕ, zero, suc, ◌+◌, Bool, true, false, Option, none, some, ◌>>=◌, List, [], ◌∷◌, ◌++◌,
  if◌then◌else◌,
}
use kernel_examples.Prelude.Int.{ℤ, pos}
use kernel_examples.Kernel.{u64, fail, ebusy, Ledger, acquire, release, netdev, registration}

pub record Packet : Type 0 where
  pub protocol : ℕ
  pub payload : List ℕ

-- The counts of stats are unsigned longs. `backlog` is what netif_rx was given, in order.
pub record Device : Type 0 where
  pub tx_packets : ℕ
  pub rx_packets : ℕ
  pub trans_start : ℕ
  pub queue_started : Bool
  pub is_up : Bool  -- IFF_UP
  pub noarp : Bool  -- IFF_NOARP
  pub dev_addr : List ℕ
  pub backlog : List Packet

pub my_rx : Packet → Device → Device
my_rx skb dev = record dev {
  rx_packets = u64 (dev.rx_packets + 1);
  backlog = dev.backlog ++ (skb ∷ []);
}

abbrev pub netdev_tx_ok : ℤ
netdev_tx_ok = pos 0

module _ (eth_type_trans : List ℕ → ℕ × List ℕ) where
  pub my_hard_start_xmit : ℕ → List ℕ → Device → ℤ × Device
  unfolding my_rx
  my_hard_start_xmit jiffies bytes dev =
      let sent = record dev { trans_start = jiffies; tx_packets = u64 (dev.tx_packets + 1) } in
      let (protocol, payload) = eth_type_trans bytes in
      (netdev_tx_ok, my_rx (record { protocol = protocol; payload = payload }) sent)

pub my_do_ioctl : ℕ → Device → ℤ × Device
my_do_ioctl cmd dev = (fail 1, dev)

pub my_config : Device → ℤ × Device
my_config dev = (if dev.is_up then fail ebusy else pos 0, dev)

pub my_change_mtu : ℕ → Device → ℤ × Device
my_change_mtu new_mtu dev = (fail 1, dev)

pub my_open : Device → ℤ × Device
my_open dev = (pos 0, record dev { queue_started = true })

pub my_close : Device → ℤ × Device
my_close dev = (pos 0, record dev { queue_started = false })

-- `(char)j` for each of the places of the address.
pub count_up : ℕ → ℕ → List ℕ
count_up zero j = []
count_up (suc n) j = j ∷ count_up n (j + 1)

abbrev pub eth_alen : ℕ
eth_alen = 6

-- ether_setup keeps the address.
pub my_setup : Device → Device
unfolding count_up
my_setup dev = record dev { dev_addr = count_up eth_alen 0; noarp = true }

-- The operations of mynet_netdev_ops, on what the kernel calls them with.
pub data Call : Type 0 where
  xmit : ℕ → List ℕ → Call
  ioctl change_mtu : ℕ → Call
  config ndo_open ndo_stop : Call

module _ (eth_type_trans : List ℕ → ℕ × List ℕ) where
  pub call : Call → Device → ℤ × Device
  unfolding my_hard_start_xmit my_do_ioctl my_config my_change_mtu my_open my_close
  call (xmit jiffies bytes) dev = my_hard_start_xmit eth_type_trans jiffies bytes dev
  call (ioctl cmd) dev = my_do_ioctl cmd dev
  call (change_mtu new_mtu) dev = my_change_mtu new_mtu dev
  call config dev = my_config dev
  call ndo_open dev = my_open dev
  call ndo_stop dev = my_close dev

  pub call_all : List Call → Device → Device
  call_all [] dev = dev
  call_all (c ∷ calls) dev = call_all calls (call c dev).1

-- my_init, by whether alloc_netdev and register_netdev succeed. `none` is a null pointer that is used.
pub my_init : Bool → Bool → Device → Ledger → Option (ℤ × Ledger × Device)
unfolding my_setup
my_init false registered dev l = none
my_init true true dev l = some (pos 0, acquire registration (acquire netdev l), my_setup dev)
my_init true false dev l = do
  freed ← release netdev (acquire netdev l)
  some (fail 1, freed, my_setup dev)

pub my_exit : Ledger → Option Ledger
my_exit l = release registration l >>= release netdev
