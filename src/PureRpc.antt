-- ===== src/PureRpc.antt =====
-- Remote objects, src/PerfectWSAdvanced/transform/utils.
pub mod Registry
