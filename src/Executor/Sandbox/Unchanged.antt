-- ===== src/Executor/Sandbox/Unchanged.antt =====
-- What f_bwrap_impl reads of an image, where the regions that it reads it from are those of another.
use flatimage.Base.{
  false, not, ◌||◌, ◌==◌, value_or, if◌then◌else◌, ℕ, ◌+◌, ◌≡◌, refl, ap, Option, none, some, Value,
  ok, err, List,
}
use flatimage.Base.Io.{File}
use flatimage.Base.Run
use flatimage.Base.Run.{Run, pure}
use flatimage.Bytes.{Bytes}
use flatimage.Json.{JsonLibrary}
use flatimage.Text.{Text}
use flatimage.Reserved.{Region, environment, bindings, offset_begin, read}
use flatimage.Reserved.Layout.{IsImage, size, size_lem}
use flatimage.Reserved.Text.{text_read, env_read, bind_read}
use Prim.Native.Nat.{bit_and}
use flatimage.Flags.{Flagset, is, contains, find, read_bits}
use flatimage.Bindings.{Bind}
use flatimage.Bindings.Database.{db_read, deserialize, or_braces, or_no_binds}
use mathlib.Core.Option.{none-ne-some}
use flatimage.Db.Env
use flatimage.Db.{items, from_string_or_empty}
use flatimage.Executor.Sandbox.{or_empty}

module _ (base : ℕ) (f g : Bytes) (image : IsImage base f) where
  -- The region of g is that of f.
  abbrev pub IsSame : Region → Type 0
  IsSame r =
      read (base + offset_begin r) (size r) (some g)
      ≡ read (base + offset_begin r) (size r) (some f)

  text_read-same : (r : Region) → IsSame r → text_read r base (some g) ≡ text_read r base (some f)
  unfolding text_read
  text_read-same r same = rw (size_lem base r image.base_fits, same) refl

  module _ (F : Flagset)
      (same : read (base + offset_begin F.region) F.sizeof_bits (some g)
        ≡ read (base + offset_begin F.region) F.sizeof_bits (some f)) where
    read_bits-same : read_bits F base (some g) ≡ read_bits F base (some f)
    unfolding read_bits
    read_bits-same = rw same refl

    pub contains-same : (p : F.Flag) → contains F base p (some g) ≡ contains F base p (some f)
    unfolding contains
    contains-same p =
        ap
          (λ bits. if is F p F.none_flag || is F p F.all_flag then false else elim (find F p) [
            | none ↦ false
            | some mask ↦ not (bit_and (value_or bits 0) mask == 0)
          ])
          read_bits-same

  module _ (lib : JsonLibrary) where
    looked-same :
        (x : Option (Value (List Bind))) (binds : List Bind)
        → Run.looked (some f) x ≡ some (ok binds, some f)
        → Run.looked (some g) x ≡ some (ok binds, some g)
    looked-same none binds h = absurd (none-ne-some (ok binds, some f) h)
    looked-same (some (ok bs)) binds h = let e : bs ≡ binds = cc in ap (λ b. some (ok b, some g)) e
    looked-same (some (err e)) binds h = absurd (cc)

    abbrev rest : Text → Run File (List Bind)
    rest reserved_data =
        Run.looks (λ file. or_no_binds lib (deserialize lib (or_braces lib reserved_data)))

    bind_reads :
        (text : Option (Value Text)) (binds : List Bind)
        → Run.resume (Run.looked (some f) text) rest ≡ some (ok binds, some f)
        → Run.resume (Run.looked (some g) text) rest ≡ some (ok binds, some g)
    bind_reads none binds h = absurd (none-ne-some (ok binds, some f) h)
    bind_reads (some (err e)) binds h = absurd (cc)
    bind_reads (some (ok text)) binds h =
        looked-same (or_no_binds lib (deserialize lib (or_braces lib text))) binds h

    pub db_read-same :
        (binds : List Bind)
        → IsSame bindings
        → db_read lib base (some f) ≡ some (ok binds, some f)
        → db_read lib base (some g) ≡ some (ok binds, some g)
    unfolding db_read bind_read
    db_read-same binds same h =
        rw (text_read-same bindings same) (bind_reads (text_read bindings base (some f)) binds h)

    module _ (expand : Text → Value Text) where
      merged :
          (m : Value (List Text)) (s t : File)
          → or_empty lib (Run.resume (Run.lift m s) (λ e. pure (Env.expand_each expand e)))
            ≡ or_empty lib (Run.resume (Run.lift m t) (λ e. pure (Env.expand_each expand e)))
      unfolding or_empty
      merged (ok e) s t = refl
      merged (err e) s t = refl

      get_reads :
          (s t : File) (text : Option (Value Text))
          → text_read environment base s ≡ text
          → text_read environment base t ≡ text
          → or_empty lib (Env.get lib expand base s) ≡ or_empty lib (Env.get lib expand base t)
      unfolding Env.get env_read or_empty
      get_reads s t none p q = rw (p, q) refl
      get_reads s t (some (err e)) p q = rw (p, q) refl
      get_reads s t (some (ok text)) p q =
          rw (p, q) (merged (Env.merge lib (items lib (from_string_or_empty lib text))) s t)

      pub get-same :
          IsSame environment
          → or_empty lib (Env.get lib expand base (some g))
            ≡ or_empty lib (Env.get lib expand base (some f))
      unfolding Env.get env_read
      get-same same =
          get_reads (some g) (some f) (text_read environment base (some f))
            (text_read-same environment same) refl
