-- ===== src/Reserved/Text.antt =====
-- src/reserved/boot.hpp, desktop.hpp, env.hpp, bind.hpp and remote.hpp: the regions that hold a text,
-- by one pair of functions that differ in the region and in a message.
use flatimage.Base.{
  ℕ, ◌+◌, String, length, leb, if◌then◌else◌, Option, some, Value, ok, err, relabel,
}
use mathlib.Core.Option
use flatimage.Base.Io
use flatimage.Base.Io.{File, Io}
use flatimage.Bytes.{c_string}
use flatimage.Reserved.{
  Region, boot, desktop, environment, bindings, remote, offset_begin, offset_end, sub_u64, write,
  read,
}
use flatimage.Text.{Text}

-- write: the text and the NUL behind it have to fit.
unfoldable pub text_write : Region → String → ℕ → Text → Io (Unit {0})
text_write r message base text =
    let space_available = sub_u64 (base + offset_end r) (base + offset_begin r) in
    if leb space_available (length text)
    then Io.fail message
    else write (base + offset_begin r) (base + offset_end r) text

unfoldable pub text_in : Value Text → Option (Value Text)
text_in (err e) = some (err e)
text_in (ok buffer) = Option.map ok (c_string buffer)

-- read: the buffer as a C string; `none` is a read behind the buffer's end.
unfoldable pub text_read : Region → ℕ → File → Option (Value Text)
unfolding text_in
text_read r base file =
    let begin = base + offset_begin r in
    text_in (read begin (sub_u64 (base + offset_end r) begin) file)

unfoldable pub boot_write : ℕ → Text → Io (Unit {0})
boot_write = text_write boot "Not enough space to fit json data"

unfoldable pub boot_read : ℕ → File → Option (Value Text)
boot_read = text_read boot

unfoldable pub desktop_write : ℕ → Text → Io (Unit {0})
desktop_write = text_write desktop "Not enough space to fit json data"

unfoldable pub desktop_read : ℕ → File → Option (Value Text)
desktop_read = text_read desktop

-- The write in env.hpp gives the errors of ns_reserved::write a message of its own, which its check of
-- the space does not get.
unfoldable pub env_write : ℕ → Text → Io (Unit {0})
env_write base text file =
    let space_available =
      sub_u64 (base + offset_end environment) (base + offset_begin environment) in
    if leb space_available (length text)
    then (err "Not enough space to fit json data", file)
    else (let (result, file') =
          write (base + offset_begin environment) (base + offset_end environment) text file in
        (relabel result "Failed to write data to {}", file'))

unfoldable pub env_read : ℕ → File → Option (Value Text)
env_read base file =
    Option.map (λ v. relabel v "Failed to read binary data from {}")
      (text_read environment base file)

unfoldable pub bind_write : ℕ → Text → Io (Unit {0})
bind_write = text_write bindings "Not enough space to fit json data"

unfoldable pub bind_read : ℕ → File → Option (Value Text)
bind_read = text_read bindings

unfoldable pub remote_write : ℕ → Text → Io (Unit {0})
remote_write = text_write remote "Not enough space to fit remote URL"

unfoldable pub remote_read : ℕ → File → Option (Value Text)
remote_read = text_read remote
