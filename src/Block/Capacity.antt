-- ===== src/Block/Capacity.antt =====
-- block_dev/sbd.c: the geometry that sbd_getgeo makes up.
use kernel_examples.Prelude.{ℕ, ◌*◌, ◌^◌, ◌<◌, ◌≡◌, arith}
use kernel_examples.Block.{Device, getgeo, kernel_sector_size}

-- At the default block size, and below 8192 sectors, the sectors of the geometry are as many as the
-- device has bytes, 512 times its sectors.
getgeo_counts_bytes :
    (dev : Device) (nsectors : ℕ)
    → dev.size ≡ nsectors * 512
    → nsectors < 2 ^ 13
    → let g = getgeo 512 dev in g.cylinders * (g.heads * g.sectors) ≡ nsectors * kernel_sector_size
unfolding getgeo
getgeo_counts_bytes dev nsectors sized small = omega arith
