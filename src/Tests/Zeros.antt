-- ===== src/Tests/Zeros.antt =====
-- What the reserved space of zeros holds.
use flatimage.Base.{
  ℕ, ◌+◌, ◌≤◌, ◌≡◌, refl, ap, zero, suc, some, ok, ◌<◌, Value, [], ◌∷◌, replicate, arith,
}
use mathlib.Core.Option
use flatimage.Bytes.{read_at, c_string}
use flatimage.Text.{Text}
use flatimage.Reserved.{Region, mib, environment, bindings, offset_begin}
use flatimage.Reserved.Layout.{size, size_lem, region_bounds}
use flatimage.Reserved.Access.{read-eq-ok}
use flatimage.Reserved.Text.{text_read, text_in, env_read, bind_read}
use flatimage.Bindings.Database.{db_read, or_braces, or_no_binds, deserialize, collect}
use flatimage.Db.Env
use flatimage.Executor.Sandbox.{or_empty}
use flatimage.Tests.Image.{empty_image}
use flatimage.Tests.Documents.{documents}
use flatimage.Tests.Library.Codec.{print}

read_at-replicate : (n l m : ℕ) → n + l ≤ m → read_at n l (replicate m 0) ≡ some (replicate l 0)
unfolding read_at replicate
read_at-replicate zero zero m h = refl
read_at-replicate zero (suc l) zero h = absurd (omega arith)
read_at-replicate zero (suc l) (suc m) h =
    ap (Option.map (λ r. 0 ∷ r)) (read_at-replicate zero l m (omega arith))
read_at-replicate (suc n) zero m h = refl
read_at-replicate (suc n) (suc l) zero h = absurd (omega arith)
read_at-replicate (suc n) (suc l) (suc m) h = read_at-replicate n (suc l) m (omega arith)

text_of_zeros : (n : ℕ) → 0 < n → text_in (ok (replicate n 0)) ≡ some (ok [])
unfolding text_in c_string replicate
text_of_zeros zero h = absurd (omega arith)
text_of_zeros (suc n) h = refl

text_read-zeros : (r : Region) → text_read r 0 (some empty_image) ≡ some (ok [])
unfolding text_read
text_read-zeros r =
    rw
      (
        size_lem 0 r (omega arith),
        read-eq-ok (0 + offset_begin r) (size r) empty_image (replicate (size r) 0) (
            read_at-replicate (0 + offset_begin r) (size r) (mib 4)
              (omega (arith, region_bounds r))),
      )
      (text_of_zeros (size r) (omega (arith, region_bounds r)))

pub get-zeros :
    (expand : Text → Value Text)
    → or_empty documents (Env.get documents expand 0 (some empty_image)) ≡ some (ok [])
unfolding or_empty Env.get env_read Env.load Env.merge flatimage.Db.items
    flatimage.Db.from_string_or_empty flatimage.Db.from_string
    flatimage.Tests.Library.Objects.fields Env.expand_each
get-zeros expand = rw (text_read-zeros environment) refl

pub db_read-zeros : db_read documents 0 (some empty_image) ≡ some (ok [], some empty_image)
unfolding db_read bind_read or_braces or_no_binds deserialize collect flatimage.Db.items
    flatimage.Db.from_string flatimage.Tests.Library.Objects.fields
    flatimage.Tests.Library.Codec.run
db_read-zeros = rw (text_read-zeros bindings) refl
