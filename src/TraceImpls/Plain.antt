-- ===== src/TraceImpls/Plain.antt =====
-- The types that the macros of src/trace.rs for implementations name: those of `empty_trace!`, which hold
-- no `Cc`, and those that are dereferenced.

-- The last four have the implementation with the feature `std` alone.
pub data PlainType : Type 0 where
  unit_type bool_type : PlainType
  isize_type usize_type i8_type u8_type i16_type u16_type i32_type u32_type : PlainType
  i64_type u64_type i128_type u128_type f32_type f64_type : PlainType
  char_type str_type c_str string_type c_string : PlainType
  non_zero_isize non_zero_usize non_zero_i8 non_zero_u8 non_zero_i16 non_zero_u16 : PlainType
  non_zero_i32 non_zero_u32 non_zero_i64 non_zero_u64 non_zero_i128 non_zero_u128 : PlainType
  atomic_bool atomic_isize atomic_usize atomic_i8 atomic_u8 atomic_i16 atomic_u16 : PlainType
  atomic_i32 atomic_u32 atomic_i64 atomic_u64 : PlainType
  path_type os_str path_buf os_string : PlainType

-- The pointers to one value that `deref_trace!` gives the implementations of that value:
-- `Box`, `ManuallyDrop` and `AssertUnwindSafe`.
pub data DerefType : Type 0 where
  boxed manually_drop assert_unwind_safe : DerefType
