-- ===== src/Lib.antt =====
-- FlatImage packs a Linux root filesystem, its tools and its configuration into one executable file, the
-- image. The image is an ELF executable with tools appended to it, then a reserved space of four MiB
-- that holds the configuration at fixed offsets, then DwarFS filesystems, the layers, each behind its
-- size. The program reads its own file at the start, and the fim- commands on its command line write it.
--
-- The parts that are modelled, each in the module of its name with the proofs in modules below it:
--   Base      what is shared: Value of src/std/expected.hpp as Expected, steps on the image file as Io (a
--             step returns a value or an error, and the file as it leaves it), lists and Boolean tests
--   Bytes     a file as the list of its bytes: reads and writes at an offset, little-endian integers
--             (to_bytes, from_bytes) and C strings
--   Bits      single bits of a word, for the flag sets
--   Text      texts as byte values: std::getline and std::views::split at a delimiter, and the
--             from_string of the macro ENUM of src/std/enum.hpp
--   Reserved  src/reserved/reserved.hpp: Region is a field of the struct Reserved, offset_begin and
--             offset_end are its constants, write and read the functions; Reserved/Text has boot.hpp,
--             desktop.hpp, env.hpp, bind.hpp and remote.hpp, Reserved/Small has notify.hpp, casefold.hpp
--             and overlay.hpp, Reserved/Icon has icon.hpp. They all go through write and read.
--             Reserved/IconSetup has the part of src/parser/cmd/desktop.hpp that fills the struct Icon
--   Flags     src/reserved/permissions.hpp and src/reserved/unshare.hpp: one text in two classes, over
--             a Flagset; Flags/Permission and Flags/Unshare are the two, and FlagsetLaws is what the
--             proofs need of them
--   Layers    src/filesystems/layers.hpp (push_binary), src/filesystems/dwarfs.hpp (is_dwarfs) and
--             src/parser/cmd/layers.hpp (add): what add appends, push_binary finds at the next start
--             Layers/Numbering and Layers/Commit are commit, over the files of Host
--   Host      the files and directories of the host by their paths, as std::filesystem changes them
--   Elf       src/lib/elf.hpp: the end of an executable by its header, and the copy of a section
--   Relocate  src/boot/relocate.hpp: what the start copies out of the image in front of its reserved space
--   Parser    src/parser/parser.hpp and src/parser/interface.hpp: Args is VecArgs, one module for each
--             command has its type and its case of parse, Command has parse itself. Parser/Words
--             describes the command lines without reference to that code
--   Json      the JSON library, which is third-party code: a record of its operations with the laws that
--             its documentation gives; Tests/Documents shows that they can be met
--   Db        src/db/db.hpp: Db is one document, and an operation that reaches into it is a step on it.
--             Db/Boot, Db/Desktop and Db/Recipe have the classes of src/db with serialize and
--             deserialize, Db/Portal those of src/db/portal; Db/Env and Db/Remote have src/db/env.hpp
--             and src/db/remote.hpp, which read and write a document in its region (Db/Stored)
--   Bwrap     src/bwrap/bwrap.hpp: the class Bwrap with its constructor and its methods, Bwrap/Start has
--             run up to the start of the process, with the messages of Db/Portal in its arguments;
--             Bwrap/Expected is no code: it lists the arguments that the sandbox ought to get
--   Recipes   fetch of src/parser/cmd/recipe.hpp, over the files of the host as a function, and
--             Recipes/Install load_recipe, info and install
--   Executor  src/parser/executor.hpp: the commands that work on the reserved space, from the command line
--             (parse of Parser) to the operations of Flags, Reserved and Db; Executor/Line has the whole
--             of execute_command, Executor/Instances fim-instance with get_instances of
--             src/filesystems/utils.hpp, Executor/Sandbox f_bwrap_impl, which starts Bwrap,
--             Executor/Start f_bwrap with its second try, and the commands that use it
--   Bindings  src/db/bind.hpp and src/parser/cmd/bind.hpp: the list of bindings, its indices, and the words
--             for the types; Bindings/Database is the document around them and its region
--   Tests     the theorems at concrete images and command lines
--
-- The image is a list of byte values below 256 by convention, with `none` for a file that does not open;
-- a file that opens has no device errors, and a read past its end fails. FIM_RESERVED_OFFSET, which the
-- build patches into the executable, is the argument `base` below 2^32. IsImage says that the reserved
-- space lies in the file. Offsets and sizes are uint64_t: sums and differences wrap at 2^64 where
-- the code computes them at run time. An error is the format text of its message, without its level and
-- with the placeholders unfilled; the log is left out.
--
-- Fuel: the loop of push_binary runs on a count of rounds and returns `none` when it runs out; the
-- theorems give a count that is enough, and the one case where none is. The loop of add gets as many
-- rounds as the layer has bytes, and one more.
--
-- A step on a state is a function that returns a value or an error with the state it leaves (Base/Run), and
-- `none` where the code reads outside a buffer, where an exception that nothing catches ends the
-- program, or where fuel runs out. getenv, the existence of a file, the expansion of a variable and
-- wget are arguments.
--
-- Fuel of fetch: a name that is met twice ends the recursion, so that only endless fresh names,
-- which come from the downloaded files, need more fuel than there are names. The loop of copy_binary
-- gets as many rounds as the section has bytes, and one more.
--
-- Not modelled: processes, mounts, FUSE, logging and the texts of fim-help, which are input and output;
-- the cases of src/parser/executor.hpp for the desktop integration, for the version, and the one that
-- joins the fetch and the installation of recipes.
pub mod Base
pub mod Bytes
pub mod Bits
pub mod Text
pub mod Reserved
pub mod Flags
pub mod Host
pub mod Elf
pub mod Layers
pub mod Relocate
pub mod Parser
pub mod Json
pub mod Db
pub mod Bindings
pub mod Bwrap
pub mod Recipes
pub mod Executor
mod Tests
