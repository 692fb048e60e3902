-- ===== src/Cli/Oob/Words.antt =====
-- `OOB_WORDS` of crates/syauth-cli/src/oob.rs, as UTF-8.
use Prim.Native.Char.{code}
use Prim.Native.String.{String}
use syauth.Base.{ℕ, ◌+◌, ◌/◌, ◌%◌, Text, List, [], ◌∷◌, ◌++◌, ltb, if◌then◌else◌}

-- The UTF-8 bytes of one code point.
abbrev pub encode_utf8 : ℕ → Text
encode_utf8 c =
    if ltb c 128
    then c ∷ []
    else if ltb c 2048
    then (192 + c / 64) ∷ (128 + c % 64) ∷ []
    else if ltb c 65536
    then (224 + c / 4096) ∷ (128 + c / 64 % 64) ∷ (128 + c % 64) ∷ []
    else (240 + c / 262144) ∷ (128 + c / 4096 % 64) ∷ (128 + c / 64 % 64) ∷ (128 + c % 64) ∷ []

abbrev pub utf8 : String → Text
utf8 String.[] = []
utf8 (String.◌∷◌ c s) = encode_utf8 (code c) ++ utf8 s

-- The variation selector U+FE0F.
abbrev emoji_style : Text
emoji_style = encode_utf8 0xfe0f

unfoldable pub oob_words : List Text
oob_words =
    utf8 "🍎 apple"
    ∷ utf8 "🐝 bee"
    ∷ utf8 "🎯 dart"
    ∷ utf8 "🌍 earth"
    ∷ utf8 "🔥 fire"
    ∷ utf8 "🍇 grape"
    ∷ utf8 "🏠 home"
    ∷ utf8 "🧊 ice"
    ∷ utf8 "🪀 jojo"
    ∷ utf8 "🪁 kite"
    ∷ utf8 "🦁 lion"
    ∷ utf8 "🌙 moon"
    ∷ utf8 "🌰 nut"
    ∷ utf8 "🐙 octo"
    ∷ utf8 "🥞 pancake"
    ∷ utf8 "🪨 quartz"
    ∷ utf8 "🌹 rose"
    ∷ utf8 "⭐ star"
    ∷ utf8 "🌳 tree"
    ∷ (utf8 "☂" ++ (emoji_style ++ utf8 " umbrella"))
    ∷ utf8 "🎻 violin"
    ∷ utf8 "🌊 wave"
    ∷ utf8 "🦓 zebra"
    ∷ utf8 "🍌 banana"
    ∷ utf8 "🌵 cactus"
    ∷ utf8 "🐬 dolphin"
    ∷ utf8 "🌽 ear"
    ∷ utf8 "🍂 fern"
    ∷ utf8 "🎁 gift"
    ∷ utf8 "🪖 helmet"
    ∷ utf8 "🦔 iguana"
    ∷ utf8 "💎 jewel"
    ∷ utf8 "🔑 key"
    ∷ utf8 "🍋 lemon"
    ∷ utf8 "🥭 mango"
    ∷ utf8 "🌮 taco"
    ∷ utf8 "🦉 owl"
    ∷ utf8 "🥧 pie"
    ∷ utf8 "👑 crown"
    ∷ utf8 "🐇 rabbit"
    ∷ utf8 "🧂 salt"
    ∷ utf8 "🍅 tomato"
    ∷ utf8 "🦄 unicorn"
    ∷ utf8 "🚐 van"
    ∷ utf8 "🌷 wattle"
    ∷ utf8 "🎷 sax"
    ∷ utf8 "🍪 cookie"
    ∷ utf8 "🎨 art"
    ∷ utf8 "🦋 butterfly"
    ∷ utf8 "🐈 cat"
    ∷ utf8 "🐶 dog"
    ∷ utf8 "🐘 elephant"
    ∷ utf8 "🦊 fox"
    ∷ utf8 "🐐 goat"
    ∷ utf8 "🐹 hamster"
    ∷ utf8 "🦔 ivy"
    ∷ utf8 "🪼 jelly"
    ∷ utf8 "🐨 koala"
    ∷ utf8 "🦙 llama"
    ∷ utf8 "🐭 mouse"
    ∷ utf8 "🦢 swan"
    ∷ utf8 "🐂 ox"
    ∷ utf8 "🐧 penguin"
    ∷ utf8 "🐤 chick"
    ∷ utf8 "🐦 robin"
    ∷ utf8 "🐍 snake"
    ∷ utf8 "🐢 turtle"
    ∷ utf8 "🦦 otter"
    ∷ utf8 "🐅 tiger"
    ∷ utf8 "🦅 eagle"
    ∷ utf8 "🐋 whale"
    ∷ utf8 "🦈 shark"
    ∷ utf8 "🦒 giraffe"
    ∷ utf8 "🐊 croc"
    ∷ utf8 "🐡 puffer"
    ∷ utf8 "🦜 parrot"
    ∷ utf8 "🐓 hen"
    ∷ utf8 "🦛 hippo"
    ∷ utf8 "🐎 horse"
    ∷ utf8 "🐃 buffalo"
    ∷ utf8 "🌻 sunflower"
    ∷ utf8 "🍄 mushroom"
    ∷ (utf8 "🌶" ++ (emoji_style ++ utf8 " chili"))
    ∷ utf8 "🥑 avocado"
    ∷ utf8 "🥦 broccoli"
    ∷ utf8 "🥒 cucumber"
    ∷ utf8 "🌽 corn"
    ∷ utf8 "🥔 potato"
    ∷ utf8 "🍆 eggplant"
    ∷ utf8 "🥕 carrot"
    ∷ utf8 "🌰 acorn"
    ∷ utf8 "🥥 coconut"
    ∷ utf8 "🍒 cherry"
    ∷ utf8 "🍓 strawberry"
    ∷ utf8 "🍑 peach"
    ∷ utf8 "🍐 pear"
    ∷ utf8 "🍊 orange"
    ∷ utf8 "🍉 melon"
    ∷ utf8 "🥝 kiwi"
    ∷ utf8 "🍍 pineapple"
    ∷ utf8 "🥭 papaya"
    ∷ utf8 "🫐 berry"
    ∷ utf8 "🥕 root"
    ∷ utf8 "🥯 bagel"
    ∷ utf8 "🥖 baguette"
    ∷ utf8 "🥨 pretzel"
    ∷ utf8 "🥐 croissant"
    ∷ utf8 "🍞 bread"
    ∷ utf8 "🧀 cheese"
    ∷ utf8 "🥚 egg"
    ∷ utf8 "🍗 drumstick"
    ∷ utf8 "🥩 steak"
    ∷ utf8 "🌭 hotdog"
    ∷ utf8 "🍔 burger"
    ∷ utf8 "🍟 fries"
    ∷ utf8 "🍕 pizza"
    ∷ utf8 "🥪 sub"
    ∷ utf8 "🌯 wrap"
    ∷ utf8 "🥙 falafel"
    ∷ utf8 "🍣 sushi"
    ∷ utf8 "🍦 sundae"
    ∷ utf8 "🍧 sorbet"
    ∷ utf8 "🍨 gelato"
    ∷ utf8 "🍫 choco"
    ∷ utf8 "🍬 candy"
    ∷ utf8 "🍮 flan"
    ∷ utf8 "🍡 dango"
    ∷ utf8 "🧁 cupcake"
    ∷ utf8 "☕ coffee"
    ∷ utf8 "🍵 tea"
    ∷ utf8 "🍶 sake"
    ∷ utf8 "🍾 bubbly"
    ∷ utf8 "🍷 wine"
    ∷ utf8 "🍸 martini"
    ∷ utf8 "🍹 mojito"
    ∷ utf8 "🍺 beer"
    ∷ utf8 "🪐 saturn"
    ∷ utf8 "🌟 nova"
    ∷ utf8 "🪨 boulder"
    ∷ (utf8 "🏔" ++ (emoji_style ++ utf8 " peak"))
    ∷ (utf8 "🏕" ++ (emoji_style ++ utf8 " camp"))
    ∷ (utf8 "🏖" ++ (emoji_style ++ utf8 " beach"))
    ∷ (utf8 "🏜" ++ (emoji_style ++ utf8 " dune"))
    ∷ (utf8 "🏝" ++ (emoji_style ++ utf8 " atoll"))
    ∷ (utf8 "⛰" ++ (emoji_style ++ utf8 " mount"))
    ∷ utf8 "🌋 volcano"
    ∷ (utf8 "🛤" ++ (emoji_style ++ utf8 " rail"))
    ∷ (utf8 "🛣" ++ (emoji_style ++ utf8 " road"))
    ∷ utf8 "🌉 bridge"
    ∷ (utf8 "🏞" ++ (emoji_style ++ utf8 " park"))
    ∷ (utf8 "🏟" ++ (emoji_style ++ utf8 " stadium"))
    ∷ (utf8 "🏛" ++ (emoji_style ++ utf8 " forum"))
    ∷ (utf8 "🏗" ++ (emoji_style ++ utf8 " crane"))
    ∷ utf8 "🧱 brick"
    ∷ (utf8 "🏘" ++ (emoji_style ++ utf8 " homes"))
    ∷ (utf8 "🏚" ++ (emoji_style ++ utf8 " shack"))
    ∷ utf8 "🏤 post"
    ∷ utf8 "🏥 clinic"
    ∷ utf8 "🏦 bank"
    ∷ utf8 "🏨 hotel"
    ∷ utf8 "🏩 inn"
    ∷ utf8 "🏪 store"
    ∷ utf8 "🏫 school"
    ∷ utf8 "🏬 mall"
    ∷ utf8 "🏭 plant"
    ∷ utf8 "🏯 keep"
    ∷ utf8 "🏰 castle"
    ∷ utf8 "🗼 tower"
    ∷ utf8 "🗽 statue"
    ∷ (utf8 "⛩" ++ (emoji_style ++ utf8 " shrine"))
    ∷ utf8 "🕌 dome"
    ∷ utf8 "🕍 hall"
    ∷ utf8 "⛪ chapel"
    ∷ utf8 "🛕 temple"
    ∷ utf8 "🕋 cube"
    ∷ utf8 "⛲ fountain"
    ∷ utf8 "⛺ tent"
    ∷ utf8 "🌁 mist"
    ∷ utf8 "🌃 night"
    ∷ utf8 "🌄 dawn"
    ∷ utf8 "🌅 sunrise"
    ∷ utf8 "🌆 dusk"
    ∷ utf8 "🌇 sunset"
    ∷ utf8 "🌌 galaxy"
    ∷ utf8 "🎠 carousel"
    ∷ utf8 "🎡 wheel"
    ∷ utf8 "🎢 coaster"
    ∷ utf8 "💈 barber"
    ∷ utf8 "🎪 circus"
    ∷ utf8 "🧳 trunk"
    ∷ utf8 "🚀 rocket"
    ∷ utf8 "🛸 saucer"
    ∷ (utf8 "✈" ++ (emoji_style ++ utf8 " jet"))
    ∷ utf8 "🚁 chopper"
    ∷ utf8 "🛶 canoe"
    ∷ utf8 "⛵ yacht"
    ∷ utf8 "🚤 boat"
    ∷ (utf8 "🛳" ++ (emoji_style ++ utf8 " liner"))
    ∷ (utf8 "⛴" ++ (emoji_style ++ utf8 " ferry"))
    ∷ (utf8 "🛥" ++ (emoji_style ++ utf8 " cruiser"))
    ∷ utf8 "🚂 train"
    ∷ utf8 "🚃 car"
    ∷ utf8 "🚄 bullet"
    ∷ utf8 "🚅 tgv"
    ∷ utf8 "🚆 metro"
    ∷ utf8 "🚇 subway"
    ∷ utf8 "🚈 light"
    ∷ utf8 "🚉 station"
    ∷ utf8 "🚊 tram"
    ∷ utf8 "🚝 mono"
    ∷ utf8 "🚞 mountain"
    ∷ utf8 "🚋 cable"
    ∷ utf8 "🚌 bus"
    ∷ utf8 "🚍 coach"
    ∷ utf8 "🚎 trolley"
    ∷ utf8 "🚏 stop"
    ∷ utf8 "🚐 mini"
    ∷ utf8 "🚑 amb"
    ∷ utf8 "🚒 fire"
    ∷ utf8 "🚓 cop"
    ∷ utf8 "🚔 cruiser"
    ∷ utf8 "🚕 taxi"
    ∷ utf8 "🚖 cab"
    ∷ utf8 "🚗 sedan"
    ∷ utf8 "🚘 motor"
    ∷ utf8 "🚙 suv"
    ∷ utf8 "🚚 truck"
    ∷ utf8 "🚛 rig"
    ∷ utf8 "🚜 tractor"
    ∷ (utf8 "🏍" ++ (emoji_style ++ utf8 " bike"))
    ∷ utf8 "🛵 scoot"
    ∷ utf8 "🚲 cycle"
    ∷ utf8 "🛴 kick"
    ∷ utf8 "🛹 board"
    ∷ utf8 "🛼 skate"
    ∷ utf8 "🦽 wheel"
    ∷ utf8 "🦼 chair"
    ∷ utf8 "🚨 siren"
    ∷ utf8 "🚧 cone"
    ∷ utf8 "🚥 light"
    ∷ utf8 "🪜 ladder"
    ∷ utf8 "🪞 mirror"
    ∷ utf8 "🪟 window"
    ∷ utf8 "🪠 plunger"
    ∷ utf8 "🪣 bucket"
    ∷ utf8 "🪤 trap"
    ∷ utf8 "🪥 brush"
    ∷ utf8 "🪦 stone"
    ∷ utf8 "🧴 lotion"
    ∷ utf8 "🧵 thread"
    ∷ utf8 "🧶 yarn"
    ∷ utf8 "🧷 pin"
    ∷ utf8 "🧸 teddy"
    ∷ utf8 "🧹 broom"
    ∷ utf8 "🧺 basket"
    ∷ utf8 "🧼 soap"
    ∷ []
