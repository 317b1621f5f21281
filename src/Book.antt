-- ===== src/Book.antt =====
-- exchange/order_book: fixed-capacity storage of resting orders.
pub mod Types
pub mod Scan
pub mod Pool
pub mod Index
pub mod SideBook
pub mod OrderBook
