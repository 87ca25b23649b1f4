-- ===== src/Tests.antt =====
-- Runs of the model on small inputs, and the theorems at concrete inputs.
mod MapsRuns
mod HashProofs
mod TextProofs
mod MapsProofs
mod BlockProofs
mod CoverageProofs
mod DebuggerProofs
mod SteppingProofs
mod LlistProofs
mod ReplyProofs
mod BreakpointProofs
mod DispatchProofs
mod DebuggerRuns
