-- ===== src/Flags/Permission.antt =====
-- src/reserved/permissions.hpp: the enumeration, its masks, and the class over them.
pub mod Lawful
use flatimage.Base.{ℕ, ◌^◌, List, [], ◌∷◌}
use flatimage.Reserved.{permissions}
use flatimage.Text.{Text, codes}
use flatimage.Flags.{Flagset}

-- ENUM(Permission, ...), which adds NONE
pub data Permission : Type 0 where
  all home media audio wayland xorg dbus_user dbus_system udev usb input gpu network dev shm optical
        none :
      Permission

abbrev pub ordinal : Permission → ℕ
ordinal all = 0
ordinal home = 1
ordinal media = 2
ordinal audio = 3
ordinal wayland = 4
ordinal xorg = 5
ordinal dbus_user = 6
ordinal dbus_system = 7
ordinal udev = 8
ordinal usb = 9
ordinal input = 10
ordinal gpu = 11
ordinal network = 12
ordinal dev = 13
ordinal shm = 14
ordinal optical = 15
ordinal none = 16

abbrev pub name : Permission → Text
name all = codes "ALL"
name home = codes "HOME"
name media = codes "MEDIA"
name audio = codes "AUDIO"
name wayland = codes "WAYLAND"
name xorg = codes "XORG"
name dbus_user = codes "DBUS_USER"
name dbus_system = codes "DBUS_SYSTEM"
name udev = codes "UDEV"
name usb = codes "USB"
name input = codes "INPUT"
name gpu = codes "GPU"
name network = codes "NETWORK"
name dev = codes "DEV"
name shm = codes "SHM"
name optical = codes "OPTICAL"
name none = codes "NONE"

abbrev pub entries : List (Permission × Text)
entries =
    (all, name all)
    ∷ (home, name home)
    ∷ (media, name media)
    ∷ (audio, name audio)
    ∷ (wayland, name wayland)
    ∷ (xorg, name xorg)
    ∷ (dbus_user, name dbus_user)
    ∷ (dbus_system, name dbus_system)
    ∷ (udev, name udev)
    ∷ (usb, name usb)
    ∷ (input, name input)
    ∷ (gpu, name gpu)
    ∷ (network, name network)
    ∷ (dev, name dev)
    ∷ (shm, name shm)
    ∷ (optical, name optical)
    ∷ (none, name none)
    ∷ []

-- Bits{1} << 0, Bits{1} << 1, ...
abbrev pub masks : List (Permission × ℕ)
masks =
    (home, 2 ^ 0)
    ∷ (media, 2 ^ 1)
    ∷ (audio, 2 ^ 2)
    ∷ (wayland, 2 ^ 3)
    ∷ (xorg, 2 ^ 4)
    ∷ (dbus_user, 2 ^ 5)
    ∷ (dbus_system, 2 ^ 6)
    ∷ (udev, 2 ^ 7)
    ∷ (usb, 2 ^ 8)
    ∷ (input, 2 ^ 9)
    ∷ (gpu, 2 ^ 10)
    ∷ (network, 2 ^ 11)
    ∷ (dev, 2 ^ 12)
    ∷ (shm, 2 ^ 13)
    ∷ (optical, 2 ^ 14)
    ∷ []

abbrev pub permissions_class : Flagset
permissions_class = record {
  Flag = Permission;
  ordinal = ordinal;
  all_flag = all;
  none_flag = none;
  name = name;
  masks = masks;
  sizeof_bits = 8;
  region = permissions;
  not_found = "Permission '{}' not found";
  invalid_none = "Invalid permission 'NONE'";
  all_with_others = "Permission 'all' should not be used with others";
}
