-- ===== src/Diag.antt =====
-- The diagnostic and demonstration programs (app-rot/src/bin, app-a35/src/bin and
-- app-coprocessor/ssp/src/bin).
pub mod Print
pub mod Decides
pub mod Memory
pub mod Dram
pub mod Uart
pub mod Ticks
pub mod Entropy
pub mod Caliptra
pub mod Echo
pub mod Hello
pub mod Counting
