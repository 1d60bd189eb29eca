-- ===== src/Tests/Sample.antt =====
-- A small system: every call works in world 0, and fails with `errno` set to the world in any other.
use afxdp_rs.Prelude.{ℕ, ◌+◌, ◌*◌, if◌then◌else◌, ◌==◌, true, false, [], ◌∷◌}
use afxdp_rs.Prelude.Int.{ℤ, pos, negsuc}
use afxdp_rs.Rust.Vec.{Vec}
use afxdp_rs.Extern.Cons.{XdpDesc}
use afxdp_rs.Extern.Sys.{Sys, Created}
use afxdp_rs.Buf.Mmap.{BufMmap}
use afxdp_rs.Area.{MmapArea, MmapAreaOptions, buf_at}
use afxdp_rs.Umem.{Umem, UmemCompletionQueue, UmemFillQueue}
use afxdp_rs.Socket.{Socket, SocketRx, SocketTx, SocketOptions}
use afxdp_rs.Tests.Cons.{window}
use afxdp_rs.Tests.Prod.{slots}

abbrev pub no_desc : XdpDesc
no_desc = record { addr = 0; len = 0; options = 0 }

abbrev pub result : ℕ → ℤ
result world = if world == 0 then pos 0 else negsuc 0

abbrev pub set_up : {C P : Type 0} → ℕ → ℕ → Created ℕ C P
set_up world handle = record {
  world = world;
  ret = result world;
  handle = handle;
  cons = λ r. r;
  prod = λ r. r;
}

abbrev pub sys : Sys
sys = record {
  World = ℕ;
  rx = window no_desc;
  tx = slots no_desc;
  comp = window 0;
  fill = slots 0;
  errno = λ world. world;
  mmap = λ world len prot flags. (world, if world == 0 then 65536 else 18446744073709551615);
  munmap = λ world ptr len. (world, result world);
  map_failed = 18446744073709551615;
  map_private = 2;
  map_anonymous = 32;
  map_hugetlb = 262144;
  prot_read = 1;
  prot_write = 2;
  poll = λ world fd events timeout. (world, result world);
  pollin = 1;
  sendto = λ world fd flags. (world, result world);
  msg_dontwait = 64;
  enobufs = 105;
  eagain = 11;
  ebusy = 16;
  enetdown = 100;
  umem_create = λ world ptr size config. set_up world 7;
  umem_delete = λ world umem. world;
  default_frame_headroom = 0;
  socket_create = λ world name queue umem rx tx config. set_up world 9;
  socket_delete = λ world socket. world;
  socket_fd = λ world socket. pos 3;
  xdp_flags_update_if_noexist = 1;
  xdp_use_need_wakeup = 8;
  xdp_zerocopy = 4;
  xdp_copy = 2;
}

abbrev pub area : MmapArea
area = record { buf_num = 4; buf_len = 2048; ptr = 65536 }

abbrev pub small_pages : MmapAreaOptions
small_pages = record { huge_tlb = false }

-- frame `k` of the area, with a packet of `len` bytes and its own number as the user value
abbrev pub frame : ℕ → ℕ → BufMmap ℕ
frame k len = buf_at 65536 (k * 2048 + 256) 1792 len k

abbrev pub umem : Umem
umem = record { area = area; umem = 7 }

abbrev pub socket : Socket
socket = record { umem = umem; socket = 9; if_name_c = 108 ∷ 111 ∷ [] }

abbrev pub copying : SocketOptions
copying = record { zero_copy_mode = false; copy_mode = true; tx_ring_size = 0; rx_ring_size = 0 }

-- two packets to receive, in the frames 1 and 3
abbrev pub rx : SocketRx (window no_desc)
rx = record {
  socket = socket;
  fd = pos 3;
  rx = record {
    held = [];
    ready =
        record { addr = 2304; len = 60; options = 0 }
        ∷ record { addr = 6400; len = 1500; options = 0 }
        ∷ [];
    latest = [];
    start = 4294967290;
  };
}

-- a transmit ring that wants a wakeup
abbrev pub tx : SocketTx (slots no_desc)
tx = record {
  socket = socket;
  fd = pos 3;
  tx = record { sent = []; reserved = []; start = 4294967290; wakeup = 1 };
}

-- the frames 0 and 2 were sent
abbrev pub completion : UmemCompletionQueue (window 0)
completion = record {
  umem = umem;
  cq = record { held = []; ready = 256 ∷ 4352 ∷ []; latest = []; start = 5 };
}

abbrev pub filling : UmemFillQueue (slots 0)
filling = record { umem = umem; fq = record { sent = []; reserved = []; start = 5; wakeup = 0 } }

abbrev pub two_bufs : Vec (BufMmap ℕ)
two_bufs = record { items = frame 0 0 ∷ frame 2 0 ∷ []; capacity = 4 }
