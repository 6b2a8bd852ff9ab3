-- ===== src/Flags/Permission/Lawful.antt =====
-- Each of these flags has a bit of its own.
use flatimage.Base.{ℕ, ◌<◌, ◌*◌, ◌^◌, ◌≡◌, refl, true, some, arith, all as every, ◌==◌}
use flatimage.Flags
use flatimage.Flags.{is, find, member, keys_but_all}
use flatimage.Flags.Laws.{is_proper, FlagsetLaws}
use flatimage.Flags.Permission.{
  Permission, permissions_class, all, home, media, audio, wayland, xorg, dbus_user, dbus_system,
  udev, usb, input, gpu, network, dev, shm, optical, none,
}

index : Permission → ℕ
index all = 0
index none = 0
index home = 0
index media = 1
index audio = 2
index wayland = 3
index xorg = 4
index dbus_user = 5
index dbus_system = 6
index udev = 7
index usb = 8
index input = 9
index gpu = 10
index network = 11
index dev = 12
index shm = 13
index optical = 14

index_fits : (flag : Permission) → is_proper permissions_class flag ≡ true → index flag < 8 * 8
unfolding index
index_fits all h = omega arith
index_fits _ h = omega arith

index_eq :
    (a b : Permission)
    → is_proper permissions_class a ≡ true
    → is_proper permissions_class b ≡ true
    → (index a == index b) ≡ is permissions_class b a
unfolding index
index_eq all b h k = cc
index_eq none b h k = cc
index_eq a all h k = cc
index_eq a none h k = cc
index_eq home home h k = refl
index_eq home _ h k = refl
index_eq media home h k = refl
index_eq media _ h k = refl
index_eq audio home h k = refl
index_eq audio _ h k = refl
index_eq wayland home h k = refl
index_eq wayland _ h k = refl
index_eq xorg home h k = refl
index_eq xorg _ h k = refl
index_eq dbus_user home h k = refl
index_eq dbus_user _ h k = refl
index_eq dbus_system home h k = refl
index_eq dbus_system _ h k = refl
index_eq udev home h k = refl
index_eq udev _ h k = refl
index_eq usb home h k = refl
index_eq usb _ h k = refl
index_eq input home h k = refl
index_eq input _ h k = refl
index_eq gpu home h k = refl
index_eq gpu _ h k = refl
index_eq network home h k = refl
index_eq network _ h k = refl
index_eq dev home h k = refl
index_eq dev _ h k = refl
index_eq shm home h k = refl
index_eq shm _ h k = refl
index_eq optical home h k = refl
index_eq optical _ h k = refl

find_lem :
    (flag : Permission)
    → is_proper permissions_class flag ≡ true
    → find permissions_class flag ≡ some (2 ^ index flag)
unfolding find index
find_lem all h = cc
find_lem none h = cc
find_lem _ h = refl

keys_all :
    (flag : Permission)
    → is_proper permissions_class flag ≡ true
    → member permissions_class
        (keys_but_all permissions_class (Flags.Flagset.masks permissions_class))
        flag
      ≡ true
unfolding keys_but_all
keys_all all h = cc
keys_all none h = cc
keys_all _ h = refl

keys_proper :
    every
      (is_proper permissions_class)
      (keys_but_all permissions_class (Flags.Flagset.masks permissions_class))
    ≡ true
unfolding keys_but_all
keys_proper = refl

pub permissions_class_laws : FlagsetLaws permissions_class
permissions_class_laws = record {
  index = index;
  index_fits = index_fits;
  index_eq = index_eq;
  find_lem = find_lem;
  size_lem = refl;
  keys_proper = keys_proper;
  keys_all = keys_all;
}
