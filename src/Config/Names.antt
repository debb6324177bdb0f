-- ===== src/Config/Names.antt =====
-- The names of the elements and attributes that server/server_config.cpp and
-- client/client_config.cpp ask for.
use fighting_card.Base.{[], ◌∷◌}
use fighting_card.Base.Text.{Text}

abbrev pub gameserver : Text
gameserver = 103 ∷ 97 ∷ 109 ∷ 101 ∷ 115 ∷ 101 ∷ 114 ∷ 118 ∷ 101 ∷ 114 ∷ []

abbrev pub gameclient : Text
gameclient = 103 ∷ 97 ∷ 109 ∷ 101 ∷ 99 ∷ 108 ∷ 105 ∷ 101 ∷ 110 ∷ 116 ∷ []

abbrev pub log : Text
log = 108 ∷ 111 ∷ 103 ∷ []

abbrev pub name : Text
name = 110 ∷ 97 ∷ 109 ∷ 101 ∷ []

abbrev pub path : Text
path = 112 ∷ 97 ∷ 116 ∷ 104 ∷ []

abbrev pub level : Text
level = 108 ∷ 101 ∷ 118 ∷ 101 ∷ 108 ∷ []

abbrev pub flush : Text
flush = 102 ∷ 108 ∷ 117 ∷ 115 ∷ 104 ∷ []

abbrev pub thread : Text
thread = 116 ∷ 104 ∷ 114 ∷ 101 ∷ 97 ∷ 100 ∷ []

abbrev pub id : Text
id = 105 ∷ 100 ∷ []

abbrev pub ip : Text
ip = 105 ∷ 112 ∷ []

abbrev pub port : Text
port = 112 ∷ 111 ∷ 114 ∷ 116 ∷ []

abbrev pub sdk : Text
sdk = 115 ∷ 100 ∷ 107 ∷ []

abbrev pub url : Text
url = 117 ∷ 114 ∷ 108 ∷ []

abbrev pub appid : Text
appid = 97 ∷ 112 ∷ 112 ∷ 105 ∷ 100 ∷ []

abbrev pub zone : Text
zone = 122 ∷ 111 ∷ 110 ∷ 101 ∷ []

abbrev pub count : Text
count = 99 ∷ 111 ∷ 117 ∷ 110 ∷ 116 ∷ []

abbrev pub users_info : Text
users_info = 117 ∷ 115 ∷ 101 ∷ 114 ∷ 115 ∷ 95 ∷ 105 ∷ 110 ∷ 102 ∷ 111 ∷ []

abbrev pub uid_from : Text
uid_from = 117 ∷ 105 ∷ 100 ∷ 95 ∷ 102 ∷ 114 ∷ 111 ∷ 109 ∷ []

abbrev pub uid_to : Text
uid_to = 117 ∷ 105 ∷ 100 ∷ 95 ∷ 116 ∷ 111 ∷ []

abbrev pub queueserver : Text
queueserver = 113 ∷ 117 ∷ 101 ∷ 117 ∷ 101 ∷ 115 ∷ 101 ∷ 114 ∷ 118 ∷ 101 ∷ 114 ∷ []
