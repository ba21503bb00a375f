-- ===== src/Lsh/Manual.antt =====
-- lsh::printHelp and lsh::man.
use lunix.Base.{ℕ, ◌+◌, ◌%◌, ◌==◌, if◌then◌else◌, Bool, true, false, List, [], ◌∷◌}
use lunix.Base.Text.{finds, Text, codes, join}

abbrev pub help_commands : List Text
help_commands =
    codes "cat"
    ∷ codes "cd"
    ∷ codes "chmod"
    ∷ codes "editor"
    ∷ codes "exit"
    ∷ codes "help"
    ∷ codes "ls"
    ∷ codes "mkdir"
    ∷ codes "nano"
    ∷ codes "passwd"
    ∷ codes "pwd"
    ∷ codes "mod"
    ∷ codes "rl"
    ∷ codes "rm"
    ∷ codes "shutdown"
    ∷ codes "ver"
    ∷ []

abbrev is_last : List Text → Bool
is_last [] = true
is_last (d ∷ ds) = false

-- The names from number `i` on, with commas between them and a new line after each tenth.
help_names : ℕ → List Text → Text
help_names i [] = []
help_names i (c ∷ cs) = join (
    c
    ∷ (if is_last cs then [] else codes ", ")
    ∷ (if (i + 1) % 10 == 0 then codes "\n          " else [])
    ∷ help_names (i + 1) cs
    ∷ [])

unfoldable pub help_text : Text
unfolding help_names
help_text = join (
    codes "\n"
    ∷ codes "Available commands:"
    ∷ codes "\n\n"
    ∷ codes "built-in: {"
    ∷ help_names 0 help_commands
    ∷ codes "}\n"
    ∷ [])

abbrev pub manual : List (Text × Text)
manual =
    (codes "cat <file>", codes "Display the contents of a file")
    ∷ (codes "cd <directory>", codes "Change the current working directory")
    ∷ (
      codes "mod <module-name>",
      codes
          "Run a python module that adds functionality to Lunix. (e.g. a module that scans the directory for a file). Modules can be used as commands. Startup modules have a startup function that runs on Lunix boot.",
    )
    ∷ (codes "chmod <args>", codes "Change the permissions of a file or directory")
    ∷ (
      codes "editor <file>",
      codes "Open a simple text editor (use 'nano' for more advanced features)",
    )
    ∷ (codes "exit", codes "Exit the shell")
    ∷ (codes "help", codes "Display this help information")
    ∷ (codes "ls", codes "List files and directories in the current directory")
    ∷ (codes "mkdir <directory>", codes "Create a new directory in the current working folder")
    ∷ (codes "nano", codes "Run the Nano text editor")
    ∷ (codes "passwd <username> <new_password>", codes "Change the password for a user (root only)")
    ∷ (codes "pwd", codes "Print the current working directory")
    ∷ (codes "rl", codes "Display the current system runlevel")
    ∷ (
      codes "rm [-R] <file/directory>",
      codes
          "Remove a file or empty directory\n  Use -R to delete a directory and its contents recursively",
    )
    ∷ (codes "shutdown", codes "Shut down the system and exit the shell")
    ∷ (codes "ver", codes "Display the OS and shell version information")
    ∷ []

man_entry : Text → List (Text × Text) → Text
man_entry command [] = join (codes "No manual entry for " ∷ command ∷ codes "\n" ∷ [])
man_entry command ((cmd, desc) ∷ entries) =
    if finds cmd command
    then join (cmd ∷ codes "\n" ∷ desc ∷ codes "\n" ∷ [])
    else man_entry command entries

unfoldable pub man_text : Text → Text
unfolding man_entry
man_text command = man_entry command manual
