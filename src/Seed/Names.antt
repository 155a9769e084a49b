-- ===== src/Seed/Names.antt =====
-- The names in cmd/bootstrap/cmd/seed.go.
use ffgif.Base.{List, [], ◌∷◌, Text, codes}

abbrev pub first_names : List Text
first_names =
    codes "James"
    ∷ codes "Mary"
    ∷ codes "John"
    ∷ codes "Patricia"
    ∷ codes "Robert"
    ∷ codes "Jennifer"
    ∷ codes "Michael"
    ∷ codes "Linda"
    ∷ codes "William"
    ∷ codes "Elizabeth"
    ∷ codes "David"
    ∷ codes "Barbara"
    ∷ codes "Richard"
    ∷ codes "Susan"
    ∷ codes "Joseph"
    ∷ codes "Jessica"
    ∷ codes "Thomas"
    ∷ codes "Sarah"
    ∷ codes "Charles"
    ∷ codes "Karen"
    ∷ codes "Christopher"
    ∷ codes "Nancy"
    ∷ codes "Daniel"
    ∷ codes "Lisa"
    ∷ codes "Matthew"
    ∷ codes "Betty"
    ∷ codes "Anthony"
    ∷ codes "Margaret"
    ∷ codes "Mark"
    ∷ codes "Sandra"
    ∷ codes "Donald"
    ∷ codes "Ashley"
    ∷ codes "Steven"
    ∷ codes "Kimberly"
    ∷ codes "Paul"
    ∷ codes "Emily"
    ∷ codes "Andrew"
    ∷ codes "Donna"
    ∷ codes "Joshua"
    ∷ codes "Michelle"
    ∷ codes "Kenneth"
    ∷ codes "Dorothy"
    ∷ codes "Kevin"
    ∷ codes "Carol"
    ∷ codes "Brian"
    ∷ codes "Amanda"
    ∷ codes "George"
    ∷ codes "Melissa"
    ∷ codes "Edward"
    ∷ codes "Deborah"
    ∷ codes "Alex"
    ∷ codes "Sam"
    ∷ codes "Jordan"
    ∷ codes "Taylor"
    ∷ codes "Morgan"
    ∷ codes "Casey"
    ∷ []

abbrev pub last_names : List Text
last_names =
    codes "Smith"
    ∷ codes "Johnson"
    ∷ codes "Williams"
    ∷ codes "Brown"
    ∷ codes "Jones"
    ∷ codes "Garcia"
    ∷ codes "Miller"
    ∷ codes "Davis"
    ∷ codes "Rodriguez"
    ∷ codes "Martinez"
    ∷ codes "Hernandez"
    ∷ codes "Lopez"
    ∷ codes "Gonzalez"
    ∷ codes "Wilson"
    ∷ codes "Anderson"
    ∷ codes "Thomas"
    ∷ codes "Taylor"
    ∷ codes "Moore"
    ∷ codes "Jackson"
    ∷ codes "Martin"
    ∷ codes "Lee"
    ∷ codes "Perez"
    ∷ codes "Thompson"
    ∷ codes "White"
    ∷ codes "Harris"
    ∷ codes "Sanchez"
    ∷ codes "Clark"
    ∷ codes "Ramirez"
    ∷ codes "Lewis"
    ∷ codes "Robinson"
    ∷ codes "Walker"
    ∷ codes "Young"
    ∷ codes "Allen"
    ∷ codes "King"
    ∷ codes "Wright"
    ∷ codes "Scott"
    ∷ codes "Torres"
    ∷ codes "Nguyen"
    ∷ codes "Hill"
    ∷ codes "Flores"
    ∷ []

abbrev pub gif_adjectives : List Text
gif_adjectives =
    codes "Funny"
    ∷ codes "Epic"
    ∷ codes "Cute"
    ∷ codes "Crazy"
    ∷ codes "Cool"
    ∷ codes "Awesome"
    ∷ codes "Super"
    ∷ codes "Happy"
    ∷ codes "Dancing"
    ∷ codes "Gaming"
    ∷ codes "Retro"
    ∷ codes "Neon"
    ∷ codes "Cyber"
    ∷ codes "Speed"
    ∷ codes "Pixel"
    ∷ codes "Vintage"
    ∷ codes "Space"
    ∷ codes "Ocean"
    ∷ codes "Fire"
    ∷ codes "Spark"
    ∷ codes "Magic"
    ∷ codes "Hyper"
    ∷ codes "Vibrant"
    ∷ codes "Smooth"
    ∷ []

abbrev pub gif_nouns : List Text
gif_nouns =
    codes "Moment"
    ∷ codes "Clip"
    ∷ codes "Dance"
    ∷ codes "Jump"
    ∷ codes "Vibe"
    ∷ codes "Roll"
    ∷ codes "Spin"
    ∷ codes "Flip"
    ∷ codes "Scene"
    ∷ codes "Explosion"
    ∷ codes "Victory"
    ∷ codes "Fail"
    ∷ codes "Celebration"
    ∷ codes "Wave"
    ∷ codes "Glow"
    ∷ codes "Drift"
    ∷ codes "Sunset"
    ∷ codes "Flight"
    ∷ codes "Combo"
    ∷ codes "Dodge"
    ∷ codes "Party"
    ∷ codes "Chill"
    ∷ codes "Burst"
    ∷ []
