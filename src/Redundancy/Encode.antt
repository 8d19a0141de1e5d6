-- ===== src/Redundancy/Encode.antt =====
-- The sending side: `_redundancy_encode` and `redundancy_encode`.
use zxlib.Prelude.{ℕ, ◌+◌, ◌%◌, true, leb, if◌then◌else◌}
use zxlib.Prelude.Family.{update}
use zxlib.Prelude.Loop.{for_up}
use zxlib.Package.{Package}
use zxlib.Package.Words.{package_malloc, package_copy, package_set_code}
use zxlib.Redundancy.{
  Redundancy, redundancy_length_data, redundancy_length_code, redundancy_reset, redundancy_put,
  set_i, redundancy_stack_xor,
}

-- One round of the do loop: a copy of the next code packet is put in the list.
unfoldable pub put_code : (id : ℕ) → Redundancy → Redundancy
put_code id r =
    let p = package_copy package_malloc (r.cp r.cn) in
    let c = record p.code { id = id } in
    let c1 = set_i c r.n (redundancy_length_data + r.cn) in
    let c2 = set_i c1 ((r.n + 1) % 2) r.i in
    let t = redundancy_put r (package_set_code (record p { code = c2 })) in
    record t { cn = r.cn + 1 }

-- The do loop, which starts with no code packet sent and ends with all of them.
unfoldable pub put_codes : (id : ℕ) → Redundancy → Redundancy
put_codes id = for_up redundancy_length_code (λ _. put_code id)

-- The packet with the code that `_redundancy_encode` gives it.
abbrev pub placed_packet : Redundancy → Package → (id : ℕ) → Package
placed_packet r p id =
    package_set_code (record p { code = set_i (record p.code { id = id }) r.n (r.dn + r.cn) })

unfoldable pub redundancy_encode_at : Redundancy → Package → (id : ℕ) → Redundancy
redundancy_encode_at r p id =
    let t = record r { dp = update r.dp r.dn (placed_packet r p id); dn = r.dn + 1 } in
    if leb redundancy_length_data t.dn
    then redundancy_reset (put_codes id (redundancy_stack_xor t))
    else t

-- The packet that is put in the list is the one that is given its place after it: both are the same object.
unfoldable pub redundancy_encode : Redundancy → Package → Redundancy
redundancy_encode r p =
    let q = record p { exist = true } in
    redundancy_encode_at (redundancy_put r (placed_packet r q r.id)) q r.id
