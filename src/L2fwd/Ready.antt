-- ===== src/L2fwd/Ready.antt =====
-- examples/l2fwd-2link.rs: what `main` has made when its loop begins.
use afxdp_rs.Rust.Vec.{Vec, IsVec}
use afxdp_rs.Rust.Vec
use afxdp_rs.Area
use afxdp_rs.Extern.Sys.{Sys}
use afxdp_rs.Umem.New.{created}
use afxdp_rs.Socket.New.{created as socket_created}
use afxdp_rs.L2fwd.Serves.{Serves}
