-- ===== src/Schema/Words.antt =====
-- The word lists of ipcgen/internal/schema/names.go, as the codes of their letters, in the order of the source.
use go_ipc.Prelude.{List, [], ◌∷◌}
use go_ipc.Schema.Names.{Text, Lexicon}

-- The keywords and predefined names of C, C++, Go and Python.
abbrev pub reserved_words : List Text
reserved_words =
    (97 ∷ 117 ∷ 116 ∷ 111 ∷ [])
    ∷ (98 ∷ 114 ∷ 101 ∷ 97 ∷ 107 ∷ [])
    ∷ (99 ∷ 97 ∷ 115 ∷ 101 ∷ [])
    ∷ (99 ∷ 104 ∷ 97 ∷ 114 ∷ [])
    ∷ (99 ∷ 111 ∷ 110 ∷ 115 ∷ 116 ∷ [])
    ∷ (99 ∷ 111 ∷ 110 ∷ 116 ∷ 105 ∷ 110 ∷ 117 ∷ 101 ∷ [])
    ∷ (100 ∷ 101 ∷ 102 ∷ 97 ∷ 117 ∷ 108 ∷ 116 ∷ [])
    ∷ (100 ∷ 111 ∷ [])
    ∷ (100 ∷ 111 ∷ 117 ∷ 98 ∷ 108 ∷ 101 ∷ [])
    ∷ (101 ∷ 108 ∷ 115 ∷ 101 ∷ [])
    ∷ (101 ∷ 110 ∷ 117 ∷ 109 ∷ [])
    ∷ (101 ∷ 120 ∷ 116 ∷ 101 ∷ 114 ∷ 110 ∷ [])
    ∷ (102 ∷ 108 ∷ 111 ∷ 97 ∷ 116 ∷ [])
    ∷ (102 ∷ 111 ∷ 114 ∷ [])
    ∷ (103 ∷ 111 ∷ 116 ∷ 111 ∷ [])
    ∷ (105 ∷ 102 ∷ [])
    ∷ (105 ∷ 110 ∷ 108 ∷ 105 ∷ 110 ∷ 101 ∷ [])
    ∷ (105 ∷ 110 ∷ 116 ∷ [])
    ∷ (108 ∷ 111 ∷ 110 ∷ 103 ∷ [])
    ∷ (114 ∷ 101 ∷ 103 ∷ 105 ∷ 115 ∷ 116 ∷ 101 ∷ 114 ∷ [])
    ∷ (114 ∷ 101 ∷ 115 ∷ 116 ∷ 114 ∷ 105 ∷ 99 ∷ 116 ∷ [])
    ∷ (114 ∷ 101 ∷ 116 ∷ 117 ∷ 114 ∷ 110 ∷ [])
    ∷ (115 ∷ 104 ∷ 111 ∷ 114 ∷ 116 ∷ [])
    ∷ (115 ∷ 105 ∷ 103 ∷ 110 ∷ 101 ∷ 100 ∷ [])
    ∷ (115 ∷ 105 ∷ 122 ∷ 101 ∷ 111 ∷ 102 ∷ [])
    ∷ (115 ∷ 116 ∷ 97 ∷ 116 ∷ 105 ∷ 99 ∷ [])
    ∷ (115 ∷ 116 ∷ 114 ∷ 117 ∷ 99 ∷ 116 ∷ [])
    ∷ (115 ∷ 119 ∷ 105 ∷ 116 ∷ 99 ∷ 104 ∷ [])
    ∷ (116 ∷ 121 ∷ 112 ∷ 101 ∷ 100 ∷ 101 ∷ 102 ∷ [])
    ∷ (117 ∷ 110 ∷ 105 ∷ 111 ∷ 110 ∷ [])
    ∷ (117 ∷ 110 ∷ 115 ∷ 105 ∷ 103 ∷ 110 ∷ 101 ∷ 100 ∷ [])
    ∷ (118 ∷ 111 ∷ 105 ∷ 100 ∷ [])
    ∷ (118 ∷ 111 ∷ 108 ∷ 97 ∷ 116 ∷ 105 ∷ 108 ∷ 101 ∷ [])
    ∷ (119 ∷ 104 ∷ 105 ∷ 108 ∷ 101 ∷ [])
    ∷ (97 ∷ 108 ∷ 105 ∷ 103 ∷ 110 ∷ 97 ∷ 115 ∷ [])
    ∷ (97 ∷ 108 ∷ 105 ∷ 103 ∷ 110 ∷ 111 ∷ 102 ∷ [])
    ∷ (98 ∷ 111 ∷ 111 ∷ 108 ∷ [])
    ∷ (116 ∷ 114 ∷ 117 ∷ 101 ∷ [])
    ∷ (102 ∷ 97 ∷ 108 ∷ 115 ∷ 101 ∷ [])
    ∷ (115 ∷ 116 ∷ 97 ∷ 116 ∷ 105 ∷ 99 ∷ 95 ∷ 97 ∷ 115 ∷ 115 ∷ 101 ∷ 114 ∷ 116 ∷ [])
    ∷ (116 ∷ 104 ∷ 114 ∷ 101 ∷ 97 ∷ 100 ∷ 95 ∷ 108 ∷ 111 ∷ 99 ∷ 97 ∷ 108 ∷ [])
    ∷ (110 ∷ 111 ∷ 114 ∷ 101 ∷ 116 ∷ 117 ∷ 114 ∷ 110 ∷ [])
    ∷ (99 ∷ 111 ∷ 109 ∷ 112 ∷ 108 ∷ 101 ∷ 120 ∷ [])
    ∷ (105 ∷ 109 ∷ 97 ∷ 103 ∷ 105 ∷ 110 ∷ 97 ∷ 114 ∷ 121 ∷ [])
    ∷ (97 ∷ 115 ∷ 115 ∷ 101 ∷ 114 ∷ 116 ∷ [])
    ∷ (101 ∷ 114 ∷ 114 ∷ 110 ∷ 111 ∷ [])
    ∷ (111 ∷ 102 ∷ 102 ∷ 115 ∷ 101 ∷ 116 ∷ 111 ∷ 102 ∷ [])
    ∷ (108 ∷ 105 ∷ 110 ∷ 117 ∷ 120 ∷ [])
    ∷ (117 ∷ 110 ∷ 105 ∷ 120 ∷ [])
    ∷ (105 ∷ 51 ∷ 56 ∷ 54 ∷ [])
    ∷ (97 ∷ 110 ∷ 100 ∷ [])
    ∷ (97 ∷ 110 ∷ 100 ∷ 95 ∷ 101 ∷ 113 ∷ [])
    ∷ (97 ∷ 115 ∷ 109 ∷ [])
    ∷ (98 ∷ 105 ∷ 116 ∷ 97 ∷ 110 ∷ 100 ∷ [])
    ∷ (98 ∷ 105 ∷ 116 ∷ 111 ∷ 114 ∷ [])
    ∷ (99 ∷ 97 ∷ 116 ∷ 99 ∷ 104 ∷ [])
    ∷ (99 ∷ 104 ∷ 97 ∷ 114 ∷ 56 ∷ 95 ∷ 116 ∷ [])
    ∷ (99 ∷ 104 ∷ 97 ∷ 114 ∷ 49 ∷ 54 ∷ 95 ∷ 116 ∷ [])
    ∷ (99 ∷ 104 ∷ 97 ∷ 114 ∷ 51 ∷ 50 ∷ 95 ∷ 116 ∷ [])
    ∷ (99 ∷ 108 ∷ 97 ∷ 115 ∷ 115 ∷ [])
    ∷ (99 ∷ 111 ∷ 109 ∷ 112 ∷ 108 ∷ [])
    ∷ (99 ∷ 111 ∷ 110 ∷ 99 ∷ 101 ∷ 112 ∷ 116 ∷ [])
    ∷ (99 ∷ 111 ∷ 110 ∷ 115 ∷ 116 ∷ 101 ∷ 118 ∷ 97 ∷ 108 ∷ [])
    ∷ (99 ∷ 111 ∷ 110 ∷ 115 ∷ 116 ∷ 101 ∷ 120 ∷ 112 ∷ 114 ∷ [])
    ∷ (99 ∷ 111 ∷ 110 ∷ 115 ∷ 116 ∷ 105 ∷ 110 ∷ 105 ∷ 116 ∷ [])
    ∷ (99 ∷ 111 ∷ 110 ∷ 115 ∷ 116 ∷ 95 ∷ 99 ∷ 97 ∷ 115 ∷ 116 ∷ [])
    ∷ (99 ∷ 111 ∷ 95 ∷ 97 ∷ 119 ∷ 97 ∷ 105 ∷ 116 ∷ [])
    ∷ (99 ∷ 111 ∷ 95 ∷ 114 ∷ 101 ∷ 116 ∷ 117 ∷ 114 ∷ 110 ∷ [])
    ∷ (99 ∷ 111 ∷ 95 ∷ 121 ∷ 105 ∷ 101 ∷ 108 ∷ 100 ∷ [])
    ∷ (100 ∷ 101 ∷ 99 ∷ 108 ∷ 116 ∷ 121 ∷ 112 ∷ 101 ∷ [])
    ∷ (100 ∷ 101 ∷ 108 ∷ 101 ∷ 116 ∷ 101 ∷ [])
    ∷ (100 ∷ 121 ∷ 110 ∷ 97 ∷ 109 ∷ 105 ∷ 99 ∷ 95 ∷ 99 ∷ 97 ∷ 115 ∷ 116 ∷ [])
    ∷ (101 ∷ 120 ∷ 112 ∷ 108 ∷ 105 ∷ 99 ∷ 105 ∷ 116 ∷ [])
    ∷ (101 ∷ 120 ∷ 112 ∷ 111 ∷ 114 ∷ 116 ∷ [])
    ∷ (102 ∷ 114 ∷ 105 ∷ 101 ∷ 110 ∷ 100 ∷ [])
    ∷ (109 ∷ 117 ∷ 116 ∷ 97 ∷ 98 ∷ 108 ∷ 101 ∷ [])
    ∷ (110 ∷ 97 ∷ 109 ∷ 101 ∷ 115 ∷ 112 ∷ 97 ∷ 99 ∷ 101 ∷ [])
    ∷ (110 ∷ 101 ∷ 119 ∷ [])
    ∷ (110 ∷ 111 ∷ 101 ∷ 120 ∷ 99 ∷ 101 ∷ 112 ∷ 116 ∷ [])
    ∷ (110 ∷ 111 ∷ 116 ∷ [])
    ∷ (110 ∷ 111 ∷ 116 ∷ 95 ∷ 101 ∷ 113 ∷ [])
    ∷ (110 ∷ 117 ∷ 108 ∷ 108 ∷ 112 ∷ 116 ∷ 114 ∷ [])
    ∷ (111 ∷ 112 ∷ 101 ∷ 114 ∷ 97 ∷ 116 ∷ 111 ∷ 114 ∷ [])
    ∷ (111 ∷ 114 ∷ [])
    ∷ (111 ∷ 114 ∷ 95 ∷ 101 ∷ 113 ∷ [])
    ∷ (112 ∷ 114 ∷ 105 ∷ 118 ∷ 97 ∷ 116 ∷ 101 ∷ [])
    ∷ (112 ∷ 114 ∷ 111 ∷ 116 ∷ 101 ∷ 99 ∷ 116 ∷ 101 ∷ 100 ∷ [])
    ∷ (112 ∷ 117 ∷ 98 ∷ 108 ∷ 105 ∷ 99 ∷ [])
    ∷ (114 ∷ 101 ∷ 105 ∷ 110 ∷ 116 ∷ 101 ∷ 114 ∷ 112 ∷ 114 ∷ 101 ∷ 116 ∷ 95 ∷ 99 ∷ 97 ∷ 115 ∷ 116
        ∷ [])
    ∷ (114 ∷ 101 ∷ 113 ∷ 117 ∷ 105 ∷ 114 ∷ 101 ∷ 115 ∷ [])
    ∷ (115 ∷ 116 ∷ 97 ∷ 116 ∷ 105 ∷ 99 ∷ 95 ∷ 99 ∷ 97 ∷ 115 ∷ 116 ∷ [])
    ∷ (116 ∷ 101 ∷ 109 ∷ 112 ∷ 108 ∷ 97 ∷ 116 ∷ 101 ∷ [])
    ∷ (116 ∷ 104 ∷ 105 ∷ 115 ∷ [])
    ∷ (116 ∷ 104 ∷ 114 ∷ 111 ∷ 119 ∷ [])
    ∷ (116 ∷ 114 ∷ 121 ∷ [])
    ∷ (116 ∷ 121 ∷ 112 ∷ 101 ∷ 105 ∷ 100 ∷ [])
    ∷ (116 ∷ 121 ∷ 112 ∷ 101 ∷ 110 ∷ 97 ∷ 109 ∷ 101 ∷ [])
    ∷ (117 ∷ 115 ∷ 105 ∷ 110 ∷ 103 ∷ [])
    ∷ (118 ∷ 105 ∷ 114 ∷ 116 ∷ 117 ∷ 97 ∷ 108 ∷ [])
    ∷ (119 ∷ 99 ∷ 104 ∷ 97 ∷ 114 ∷ 95 ∷ 116 ∷ [])
    ∷ (120 ∷ 111 ∷ 114 ∷ [])
    ∷ (120 ∷ 111 ∷ 114 ∷ 95 ∷ 101 ∷ 113 ∷ [])
    ∷ (115 ∷ 116 ∷ 100 ∷ [])
    ∷ (99 ∷ 104 ∷ 97 ∷ 110 ∷ [])
    ∷ (100 ∷ 101 ∷ 102 ∷ 101 ∷ 114 ∷ [])
    ∷ (102 ∷ 97 ∷ 108 ∷ 108 ∷ 116 ∷ 104 ∷ 114 ∷ 111 ∷ 117 ∷ 103 ∷ 104 ∷ [])
    ∷ (102 ∷ 117 ∷ 110 ∷ 99 ∷ [])
    ∷ (103 ∷ 111 ∷ [])
    ∷ (105 ∷ 109 ∷ 112 ∷ 111 ∷ 114 ∷ 116 ∷ [])
    ∷ (105 ∷ 110 ∷ 116 ∷ 101 ∷ 114 ∷ 102 ∷ 97 ∷ 99 ∷ 101 ∷ [])
    ∷ (109 ∷ 97 ∷ 112 ∷ [])
    ∷ (112 ∷ 97 ∷ 99 ∷ 107 ∷ 97 ∷ 103 ∷ 101 ∷ [])
    ∷ (114 ∷ 97 ∷ 110 ∷ 103 ∷ 101 ∷ [])
    ∷ (115 ∷ 101 ∷ 108 ∷ 101 ∷ 99 ∷ 116 ∷ [])
    ∷ (116 ∷ 121 ∷ 112 ∷ 101 ∷ [])
    ∷ (118 ∷ 97 ∷ 114 ∷ [])
    ∷ (97 ∷ 115 ∷ [])
    ∷ (97 ∷ 115 ∷ 121 ∷ 110 ∷ 99 ∷ [])
    ∷ (97 ∷ 119 ∷ 97 ∷ 105 ∷ 116 ∷ [])
    ∷ (100 ∷ 101 ∷ 102 ∷ [])
    ∷ (100 ∷ 101 ∷ 108 ∷ [])
    ∷ (101 ∷ 108 ∷ 105 ∷ 102 ∷ [])
    ∷ (101 ∷ 120 ∷ 99 ∷ 101 ∷ 112 ∷ 116 ∷ [])
    ∷ (102 ∷ 105 ∷ 110 ∷ 97 ∷ 108 ∷ 108 ∷ 121 ∷ [])
    ∷ (102 ∷ 114 ∷ 111 ∷ 109 ∷ [])
    ∷ (103 ∷ 108 ∷ 111 ∷ 98 ∷ 97 ∷ 108 ∷ [])
    ∷ (105 ∷ 110 ∷ [])
    ∷ (105 ∷ 115 ∷ [])
    ∷ (108 ∷ 97 ∷ 109 ∷ 98 ∷ 100 ∷ 97 ∷ [])
    ∷ (110 ∷ 111 ∷ 110 ∷ 108 ∷ 111 ∷ 99 ∷ 97 ∷ 108 ∷ [])
    ∷ (112 ∷ 97 ∷ 115 ∷ 115 ∷ [])
    ∷ (114 ∷ 97 ∷ 105 ∷ 115 ∷ 101 ∷ [])
    ∷ (119 ∷ 105 ∷ 116 ∷ 104 ∷ [])
    ∷ (121 ∷ 105 ∷ 101 ∷ 108 ∷ 100 ∷ [])
    ∷ (110 ∷ 111 ∷ 110 ∷ 101 ∷ [])
    ∷ (115 ∷ 101 ∷ 108 ∷ 102 ∷ [])
    ∷ (99 ∷ 108 ∷ 115 ∷ [])
    ∷ (115 ∷ 105 ∷ 122 ∷ 101 ∷ [])
    ∷ (101 ∷ 110 ∷ 99 ∷ 111 ∷ 100 ∷ 101 ∷ [])
    ∷ (100 ∷ 101 ∷ 99 ∷ 111 ∷ 100 ∷ 101 ∷ [])
    ∷ (116 ∷ 121 ∷ 112 ∷ 101 ∷ 95 ∷ 105 ∷ 100 ∷ [])
    ∷ (102 ∷ 105 ∷ 120 ∷ 101 ∷ 100 ∷ 95 ∷ 115 ∷ 105 ∷ 122 ∷ 101 ∷ [])
    ∷ []

-- The methods that generated Go declares.
abbrev pub go_methods : List Text
go_methods =
    (83 ∷ 105 ∷ 122 ∷ 101 ∷ [])
    ∷ (77 ∷ 97 ∷ 114 ∷ 115 ∷ 104 ∷ 97 ∷ 108 ∷ 84 ∷ 111 ∷ [])
    ∷ (77 ∷ 97 ∷ 114 ∷ 115 ∷ 104 ∷ 97 ∷ 108 ∷ 66 ∷ 105 ∷ 110 ∷ 97 ∷ 114 ∷ 121 ∷ [])
    ∷ (85 ∷ 110 ∷ 109 ∷ 97 ∷ 114 ∷ 115 ∷ 104 ∷ 97 ∷ 108 ∷ 66 ∷ 105 ∷ 110 ∷ 97 ∷ 114 ∷ 121 ∷ [])
    ∷ (84 ∷ 121 ∷ 112 ∷ 101 ∷ 73 ∷ 68 ∷ [])
    ∷ []

-- Of generated Python.
abbrev pub py_names : List Text
py_names = (77 ∷ 69 ∷ 83 ∷ 83 ∷ 65 ∷ 71 ∷ 69 ∷ 83 ∷ []) ∷ []

-- Of generated Go.
abbrev pub go_names : List Text
go_names =
    (77 ∷ 101 ∷ 115 ∷ 115 ∷ 97 ∷ 103 ∷ 101 ∷ [])
    ∷ (78 ∷ 101 ∷ 119 ∷ 77 ∷ 101 ∷ 115 ∷ 115 ∷ 97 ∷ 103 ∷ 101 ∷ [])
    ∷ []

abbrev pub lexicon : Lexicon
lexicon = record {
  reserved = reserved_words;
  go_methods = go_methods;
  py_names = py_names;
  go_names = go_names;
}
