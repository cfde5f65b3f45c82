-- ===== src/Routes.antt =====
-- src/routes: the route table and its mirror in the kernel.
pub mod Table
