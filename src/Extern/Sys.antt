-- ===== src/Extern/Sys.antt =====
-- The system calls, and libbpf's calls that make and delete a umem and a socket. Each takes the state
-- of the world outside the program and returns it changed.
use afxdp_rs.Prelude.{ℕ, List, Option}
use afxdp_rs.Prelude.Int.{ℤ}
use afxdp_rs.Extern.Cons.{XdpDesc, ConsRing}
use afxdp_rs.Extern.Prod.{ProdRing}

-- libbpf's `xsk_umem_config`
pub record UmemConfig : Type 0 where
  pub fill_size : ℕ
  pub comp_size : ℕ
  pub frame_size : ℕ
  pub frame_headroom : ℕ
  pub flags : ℕ

-- libbpf's `xsk_socket_config`
pub record SocketConfig : Type 0 where
  pub rx_size : ℕ
  pub tx_size : ℕ
  pub xdp_flags : ℕ
  pub bind_flags : ℕ
  pub libbpf_flags : ℕ

-- What a create call leaves behind: its return value, the pointer that it stored, and what it wrote
-- into the two rings, if it was given them.
pub record Created (W C P : Type 0) : Type 0 where
  pub world : W
  pub ret : ℤ
  pub handle : ℕ
  pub cons : C → C
  pub prod : P → P

pub record Sys : Type 1 where
  pub World : Type 0
  pub rx : ConsRing XdpDesc
  pub tx : ProdRing XdpDesc
  pub comp : ConsRing ℕ
  pub fill : ProdRing ℕ
  pub errno : World → ℕ
  -- `mmap(null, len, prot, flags, -1, 0)`, and `munmap(ptr, len)`
  pub mmap : World → ℕ → ℕ → ℕ → World × ℕ
  pub munmap : World → ℕ → ℕ → World × ℤ
  pub map_failed : ℕ
  pub map_private : ℕ
  pub map_anonymous : ℕ
  pub map_hugetlb : ℕ
  pub prot_read : ℕ
  pub prot_write : ℕ
  -- `poll(&mut pollfd { fd, events, 0 }, 1, timeout)`
  pub poll : World → ℤ → ℕ → ℕ → World × ℤ
  pub pollin : ℕ
  -- `sendto(fd, null, 0, flags, null, 0)`
  pub sendto : World → ℤ → ℕ → World × ℤ
  pub msg_dontwait : ℕ
  pub enobufs : ℕ
  pub eagain : ℕ
  pub ebusy : ℕ
  pub enetdown : ℕ
  -- `xsk_umem__create(&mut umem, ptr, size, fq, cq, &cfg)`
  pub umem_create : World → ℕ → ℕ → UmemConfig → Created World comp.Ring fill.Ring
  pub umem_delete : World → ℕ → World
  pub default_frame_headroom : ℕ
  -- `xsk_socket__create(&mut xsk, if_name, queue, umem, rx, tx, &cfg)`; a null ring is `none`
  pub socket_create :
      World
      → List ℕ
      → ℕ
      → ℕ
      → Option rx.Ring
      → Option tx.Ring
      → SocketConfig
      → Created World rx.Ring tx.Ring
  pub socket_delete : World → ℕ → World
  pub socket_fd : World → ℕ → ℤ
  pub xdp_flags_update_if_noexist : ℕ
  pub xdp_use_need_wakeup : ℕ
  pub xdp_zerocopy : ℕ
  pub xdp_copy : ℕ
