-- ===== src/Pfor.antt =====
-- The posting list codec of include/turbopfor-encode.h and src/turbopfor.cpp, for 32-bit docids.
pub mod Values
pub mod Bits
pub mod Numbers
pub mod Packing
pub mod Unpacking
pub mod Interleaved
pub mod Bitmap
pub mod Choice
pub mod Blocks
pub mod BlockRoundTrip
pub mod ConstantRoundTrip
pub mod VbRoundTrip
mod Examples
