-- ===== src/Mem/Address.antt =====
-- The split of an address by the functions of src/mem.c.
use hk232_assignment_os.Base.{ℕ, ◌+◌, ◌*◌, ◌/◌, ◌%◌, ◌^◌, ◌<◌, ◌≡◌, arith}
use hk232_assignment_os.Base.Bits.{bit_and_mask}
use hk232_assignment_os.Mem.{
  address_size, offset_len, first_lv_len, second_lv_len, page_size, get_offset, get_first_lv,
  get_second_lv,
}

offset_arith : (addr : ℕ) → get_offset addr ≡ addr % page_size
unfolding get_offset
offset_arith addr = bit_and_mask 10 addr

second_arith :
    (addr : ℕ) → addr < 2 ^ 32 → get_second_lv addr ≡ addr / 2 ^ offset_len % 2 ^ second_lv_len
unfolding get_second_lv get_first_lv
second_arith addr b = omega (arith, b)

-- The two layer indexes and the offset of a 32-bit address give it back. The second index and the
-- offset lie within their ranges, and so does the first one when the address has 20 bits.
pub lv-offset :
    (addr : ℕ)
    → addr < 2 ^ 32
    → ((get_first_lv addr * 2 ^ second_lv_len + get_second_lv addr) * page_size + get_offset addr
        ≡ addr)
      × (get_second_lv addr < 2 ^ second_lv_len)
      × (get_offset addr < page_size)
      × (addr < 2 ^ address_size → get_first_lv addr < 2 ^ first_lv_len)
unfolding get_first_lv
lv-offset addr b = (
  omega (arith, offset_arith addr, second_arith addr b),
  omega (arith, second_arith addr b),
  omega (arith, offset_arith addr),
  λ small. omega (arith, small),
)
