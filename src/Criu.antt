-- ===== src/Criu.antt =====
-- pkg/criu and the GPU callback of internal/cedana/gpu/controller.go: the hooks that run around and
-- during a CRIU operation.
pub mod Notify
pub mod Swrk
pub mod Order
pub mod Finalize
pub mod GpuDump
pub mod GpuRestore
