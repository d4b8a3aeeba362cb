-- ===== src/Tests.antt =====
-- Concrete inputs: the theorems at inputs that meet their hypotheses, and runs of the code.
mod Hardware
mod SbiRuns
mod SmhcRuns
mod UtilRuns
mod LogRuns
mod ToolRuns
mod DramRuns
mod FlashRuns
mod LayoutRuns
mod PllRuns
