-- ===== src/Tenancy.antt =====
-- Lists of several tenants (apps/branch_data).
pub mod Combined
pub mod Ordered
pub mod Pages
