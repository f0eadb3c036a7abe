-- ===== src/Net/Laws.antt =====
-- networking/mynet_drv.c: what was sent is received, and counted.
use kernel_examples.Prelude.{
  ℕ, ◌+◌, ◌^◌, ◌<◌, ◌≡◌, refl, sym, ◌∙◌, arith, Bool, true, false, some, none, List, [], ◌∷◌, ◌++◌,
  append-nil, append_assoc, length,
}
use kernel_examples.Kernel.{u64, Ledger, acquire, netdev, registration, fail, release-acquire}
use kernel_examples.Prelude.Int.{pos}
use kernel_examples.Net.{
  Packet, Device, my_rx, my_hard_start_xmit, my_do_ioctl, my_config, my_change_mtu, my_open,
  my_close, Call, xmit, ioctl, change_mtu, config, ndo_open, ndo_stop, my_setup, call, call_all,
  my_init, my_exit,
}

module _ (eth_type_trans : List ℕ → ℕ × List ℕ) where
  abbrev packet : List ℕ → Packet
  packet bytes = record { protocol = (eth_type_trans bytes).0; payload = (eth_type_trans bytes).1 }

  -- The packets of the calls, as they come back.
  pub looped : List Call → List Packet
  looped [] = []
  looped (xmit jiffies bytes ∷ calls) = packet bytes ∷ looped calls
  looped (ioctl cmd ∷ calls) = looped calls
  looped (change_mtu new_mtu ∷ calls) = looped calls
  looped (config ∷ calls) = looped calls
  looped (ndo_open ∷ calls) = looped calls
  looped (ndo_stop ∷ calls) = looped calls

  call_all-looped :
      (calls : List Call) (dev : Device)
      → dev.tx_packets < 2 ^ 64
      → dev.rx_packets < 2 ^ 64
      → ((call_all eth_type_trans calls dev).backlog ≡ dev.backlog ++ looped calls)
        × ((call_all eth_type_trans calls dev).tx_packets
            ≡ u64 (dev.tx_packets + length (looped calls)))
        × ((call_all eth_type_trans calls dev).rx_packets
            ≡ u64 (dev.rx_packets + length (looped calls)))
        × ((call_all eth_type_trans calls dev).dev_addr ≡ dev.dev_addr)
        × ((call_all eth_type_trans calls dev).noarp ≡ dev.noarp)
  unfolding call_all call my_hard_start_xmit my_rx my_do_ioctl my_config my_change_mtu my_open
      my_close looped
  call_all-looped [] dev h k = (sym (append-nil dev.backlog), omega arith, omega arith, refl, refl)
  call_all-looped (xmit jiffies bytes ∷ calls) dev h k =
      let after = (call eth_type_trans (xmit jiffies bytes) dev).1 in
      let (backlog, tx, rx, addr, noarp) =
        call_all-looped calls after (omega arith) (omega arith) in
      (
        backlog ∙ append_assoc dev.backlog (packet bytes ∷ []) (looped calls),
        omega arith,
        omega arith,
        addr,
        noarp,
      )
  call_all-looped (ioctl cmd ∷ calls) dev h k = call_all-looped calls dev h k
  call_all-looped (change_mtu new_mtu ∷ calls) dev h k = call_all-looped calls dev h k
  call_all-looped (config ∷ calls) dev h k = call_all-looped calls dev h k
  call_all-looped (ndo_open ∷ calls) dev h k =
      call_all-looped calls (record dev { queue_started = true }) h k
  call_all-looped (ndo_stop ∷ calls) dev h k =
      call_all-looped calls (record dev { queue_started = false }) h k

  -- How loading and unloading end, by what the kernel grants.
  abbrev pub NetEnds : Device → Ledger → Type 0
  NetEnds dev l =
      ((held : Ledger) × (my_init true true dev l ≡ some (pos 0, held, my_setup dev))
        × (my_exit held ≡ some l))
      × (my_init true false dev l ≡ some (fail 1, l, my_setup dev))
      × ((registered : Bool) → my_init false registered dev l ≡ none)

  net_ends : (dev : Device) (l : Ledger) → NetEnds dev l
  unfolding my_init my_exit
  net_ends dev l = (
    (
      acquire registration (acquire netdev l),
      refl,
      rw (release-acquire registration (acquire netdev l)) (release-acquire netdev l),
    ),
    rw (release-acquire netdev l) refl,
    λ registered. refl,
  )

  -- Loading sets a device up, or gives back what it took where the device cannot be registered, or uses
  -- a null pointer where there is no memory for it; unloading gives everything back. Once a device is
  -- set up, with counts that are 64-bit words, in every sequence of calls it receives exactly the
  -- packets that were sent, each once and in order, as the kernel classifies them; both of its counts
  -- grow by their number, as 64-bit words; and it keeps the address 00:01:02:03:04:05 and goes without
  -- ARP.
  pub call_all_lem :
      (calls : List Call) (dev : Device) (l : Ledger)
      → dev.tx_packets < 2 ^ 64
      → dev.rx_packets < 2 ^ 64
      → NetEnds dev l
        × ((call_all eth_type_trans calls (my_setup dev)).backlog ≡ dev.backlog ++ looped calls)
        × ((call_all eth_type_trans calls (my_setup dev)).tx_packets
            ≡ u64 (dev.tx_packets + length (looped calls)))
        × ((call_all eth_type_trans calls (my_setup dev)).rx_packets
            ≡ u64 (dev.rx_packets + length (looped calls)))
        × ((call_all eth_type_trans calls (my_setup dev)).dev_addr ≡ 0 ∷ 1 ∷ 2 ∷ 3 ∷ 4 ∷ 5 ∷ [])
        × ((call_all eth_type_trans calls (my_setup dev)).noarp ≡ true)
  unfolding my_setup
  call_all_lem calls dev l h k =
      let (backlog, tx, rx, addr, noarp) = call_all-looped calls (my_setup dev) h k in
      (net_ends dev l, backlog, tx, rx, addr, noarp)
