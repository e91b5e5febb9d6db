-- ===== src/Initiator/Multicast.antt =====
-- memcpy.cpp: the copy of the multicast initiator, against the size that it announces.
use nvbandwidth.Prelude.{ℕ, suc, ◌*◌, ◌/◌, ◌≡◌, ◌<◌, refl, ap, ◌∙◌, arith, List, ltb, if◌then◌else◌}
use nvbandwidth.Config.{u32_mod, num_thread_per_block}
use nvbandwidth.Kernel.Memory.{Memory}
use nvbandwidth.Kernel.Grid.{Thread, IsSchedule}
use nvbandwidth.Kernel.Launch.{ok}
use nvbandwidth.Kernel.Multicast.{multicast_copy, multicast_copy_kernel_lem}
use nvbandwidth.Initiator.{multicast_write, get_adjusted_copy_size}

-- `multicastCopy` makes the bytes of the destination that it returns the number of those of the source,
-- and changes no other: in any schedule of its threads, which number at least one and fewer than 2^32,
-- with at least one round. That number is the size that the initiator announces.
pub multicast_copy_lem :
    (num_sm sm_copy_bytes n size : ℕ) (ts : List Thread) (src dst : Memory)
    → IsSchedule num_sm num_thread_per_block ts
    → 0 < num_sm
    → num_sm * num_thread_per_block < u32_mod
    → let r = multicast_copy num_sm ts (suc n) size src dst in
      ((j : ℕ) → r.0 j ≡ (if ltb (j * 4) r.1 then src j else dst j))
      × (get_adjusted_copy_size multicast_write sm_copy_bytes num_sm size ≡ ok r.1)
unfolding multicast_copy get_adjusted_copy_size
multicast_copy_lem num_sm sb n size ts src dst s pos fits = (
  λ j.
      multicast_copy_kernel_lem s fits (omega arith) n (size / 4) src dst j
      ∙ ap (λ b. if b then src j else dst j) (scaled j (size / 4)),
  refl,
)
  where
    scaled : (j k : ℕ) → ltb j k ≡ ltb (j * 4) (k * 4)
    scaled j k = ground arith
