-- ===== src/Redundancy/Decode.antt =====
-- The receiving side for one dimension: `_redundancy_decode` with `redundancy_imple`, which restores
-- lost packets.
use zxlib.Prelude.{
  ℕ, zero, suc, ◌+◌, ◌-◌, ◌%◌, Bool, true, false, not, ◌&&◌, ◌||◌, Option, none, some, ltb, leb,
  ◌==◌, if◌then◌else◌,
}
use zxlib.Prelude.Family.{update}
use zxlib.Prelude.Loop.{for_up, sum_range}
use zxlib.Prelude.First.{first}
use zxlib.Package.{Package}
use zxlib.Package.Words.{package_malloc, package_copy, package_set_code, package_get_code}
use zxlib.Package.Xor.{package_xor2}
use zxlib.Redundancy.{
  Redundancy, redundancy_length, redundancy_length_data, redundancy_length_code, redundancy_reset,
  redundancy_put, set_i, redundancy_xor,
}
use zxlib.Redundancy.Table.{redundancy_table}

-- `redundancy_lost`: `none` for -1.
unfoldable pub redundancy_lost : Redundancy → (num : ℕ) → Option ℕ
redundancy_lost r num = first redundancy_length (λ i. not (r.mark i) && redundancy_table i num)

-- `_redundancy_imple`, without the message.
unfoldable pub redundancy_restore : Redundancy → Package → (lost : ℕ) → Redundancy
redundancy_restore r p lost =
    let t = redundancy_xor r p lost in
    let c = set_i (record p.code { id = t.id }) t.n t.i in
    let q = package_set_code (record p { code = set_i c ((1 + t.n) % 2) lost }) in
    redundancy_put
      (record t {
        mark = update t.mark lost true;
        dn = if ltb lost redundancy_length_data then t.dn + 1 else t.dn;
        cn = if ltb lost redundancy_length_data then t.cn else t.cn + 1;
      })
      q

-- `num[i]`: the missing packets that column `i` takes in.
abbrev pub missing : (ℕ → Bool) → (i : ℕ) → ℕ → ℕ
missing mark i j = if mark j then 0 else if redundancy_table j i then 1 else 0

unfoldable pub count_missing : Redundancy → ℕ → ℕ
count_missing r i = sum_range redundancy_length (missing r.mark i)

-- `check` and `lost` of the comparison of two columns, which stops at the second difference.
unfoldable pub differ_cell : (ℕ → Bool) → (i j : ℕ) → ℕ → ℕ × ℕ → ℕ × ℕ
differ_cell mark i j k (check, lost) =
    if ltb 1 check || mark k
    then (check, lost)
    else if redundancy_table k i && redundancy_table k j
        || not (redundancy_table k i) && not (redundancy_table k j)
    then (check, lost)
    else (check + 1, k)

unfoldable pub differ_columns : (ℕ → Bool) → (i j : ℕ) → ℕ → ℕ × ℕ
differ_columns mark i j n = for_up n (differ_cell mark i j) (0, 0)

-- Column `j` comes after `i` and differs from it in one missing packet.
abbrev pub is_pair : Redundancy → (ℕ → ℕ) → (i j : ℕ) → Bool
is_pair r num i j =
    ltb i j
    && (num j == num i + 1 || num i == num j + 1)
    && (differ_columns r.mark i j redundancy_length).0 == 1

-- One round of the outer loop of `redundancy_imple`: the packet it restores and its place. A place
-- that is not found would be -1 in the code, outside the table.
unfoldable pub imple_one : Redundancy → (ℕ → ℕ) → (i : ℕ) → Option (Package × ℕ)
imple_one r num i =
    if num i == 1
    then elim (redundancy_lost r i) [
      | none ↦ none
      | some lost ↦ some (package_copy package_malloc (r.cp i), lost)
    ]
    else elim (first redundancy_length_code (is_pair r num i)) [
      | none ↦ none
      | some j ↦
          let p = package_copy package_malloc (r.cp i) in
          some (package_xor2 p p (r.cp j), (differ_columns r.mark i j redundancy_length).1)
    ]

-- The loop. After a packet is restored it starts again with the first column, unless all data
-- packets are there.
unfoldable pub imple_loop : ℕ → Redundancy → (ℕ → ℕ) → (i : ℕ) → Option Redundancy
imple_loop zero r num i = none
imple_loop (suc fuel) r num i = elim (leb redundancy_length_code i) [
  | true ↦ some r
  | false ↦ elim (imple_one r num i) [
    | none ↦ imple_loop fuel r num (i + 1)
    | some (p, lost) ↦
        let t = redundancy_restore r p lost in
        elim (t.dn == redundancy_length_data) [
          | true ↦ some t
          | false ↦ imple_loop fuel t (λ j. num j - (if redundancy_table lost j then 1 else 0)) 0
        ]
  ]
]

-- `redundancy_imple`. There are at most sixteen packets to restore, and at most six rounds for each.
unfoldable pub redundancy_imple : Redundancy → Option Redundancy
redundancy_imple r = imple_loop 128 r (count_missing r) 0

-- `_redundancy_decode`
unfoldable pub redundancy_decode_at : Redundancy → Package → (num : ℕ) → Option Redundancy
redundancy_decode_at r p num =
    let q = package_get_code p in
    let s = if r.id == q.code.id then r else record (redundancy_reset r) { id = q.code.id } in
    let t = redundancy_xor s q num in
    if ltb num redundancy_length_data
    then some (record t { dn = t.dn + 1 })
    else let u = record t { cn = t.cn + 1 } in
      if u.dn == redundancy_length_data then some u else redundancy_imple u

-- The body of the loop of `redundancy_decode` for the packet that `queue_get` has returned. The packet
-- in the list is the one whose code is read after it: both are the same object.
unfoldable pub redundancy_decode : Redundancy → Package → Option Redundancy
redundancy_decode r p =
    let q = record p { exist = true } in
    let t = redundancy_put r (package_get_code q) in
    redundancy_decode_at (record t { mark = update t.mark p.code.i0 true }) q p.code.i0
